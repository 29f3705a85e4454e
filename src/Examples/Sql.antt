-- ===== src/Examples/Sql.antt =====
-- SQL types, scores and impacts at concrete inputs.
use changesafe.Prelude.{◌≡◌, refl, ◌<◌, ◌*◌, ◌^◌, ◌-◌, [], ◌∷◌, codes, ok, err, arith}
use changesafe.SqlTypes.Parts.{normalized_parts, unsupported}
use changesafe.SqlTypes.Canonical.{IsCanonical, canonical_sql_type-IsCanonical}
use changesafe.SqlTypes.Canonicalize.{SqlType, canonical_sql_type}
use changesafe.SqlTypes.Kind.{
  same_type, sized_kind, number_kind, ChangeKind, widening, incompatible, type_change_kind,
}
use changesafe.SqlTypes.Order.{
  type_change_kind_trans, type_change_kind_total, type_change_kind_asymm,
}
use changesafe.SqlTypes.Values.{number_widening_keeps_values}

abbrev decimal : SqlType
decimal = record { base = codes "NUMBER"; parameters = 10 ∷ 2 ∷ [] }

abbrev wide_decimal : SqlType
wide_decimal = record { base = codes "NUMBER"; parameters = 12 ∷ 3 ∷ [] }

canonical_decimal : canonical_sql_type " decimal( 10 ,2 )" ≡ ok decimal
unfolding canonical_sql_type normalized_parts
canonical_decimal = refl

canonical_wide : canonical_sql_type "NUMBER(12,3)" ≡ ok wide_decimal
unfolding canonical_sql_type normalized_parts
canonical_wide = refl

canonical_space : canonical_sql_type "NUMBER (10,2)" ≡ err unsupported
unfolding canonical_sql_type normalized_parts
canonical_space = refl

decimal_widens : type_change_kind " decimal( 10 ,2 )" "NUMBER(12,3)" ≡ ok widening
unfolding type_change_kind canonical_sql_type normalized_parts same_type sized_kind number_kind
decimal_widens = refl

varchar_widens : type_change_kind "VARCHAR(10)" "TEXT(20)" ≡ ok widening
unfolding type_change_kind canonical_sql_type normalized_parts same_type sized_kind number_kind
varchar_widens = refl

varchar_widens_more : type_change_kind "TEXT(20)" "STRING" ≡ ok widening
unfolding type_change_kind canonical_sql_type normalized_parts same_type sized_kind number_kind
varchar_widens_more = refl

canonical_sql_type-IsCanonical_example : IsCanonical decimal
canonical_sql_type-IsCanonical_example =
    canonical_sql_type-IsCanonical " decimal( 10 ,2 )" decimal canonical_decimal

type_change_kind_trans_example : type_change_kind "VARCHAR(10)" "STRING" ≡ ok widening
type_change_kind_trans_example =
    type_change_kind_trans "VARCHAR(10)" "TEXT(20)" "STRING" varchar_widens varchar_widens_more

type_change_kind_total_example :
    (k : ChangeKind) × (type_change_kind " decimal( 10 ,2 )" "NUMBER(12,3)" ≡ ok k)
type_change_kind_total_example =
    type_change_kind_total " decimal( 10 ,2 )" "NUMBER(12,3)" decimal wide_decimal canonical_decimal
      canonical_wide

type_change_kind_asymm_example : type_change_kind "TEXT(20)" "VARCHAR(10)" ≡ ok incompatible
type_change_kind_asymm_example = type_change_kind_asymm "VARCHAR(10)" "TEXT(20)" varchar_widens

number_widening_keeps_values_example :
    (12345 * 10 ^ (3 - 2) < 10 ^ 12) × (12345 * 10 ^ (3 - 2) * 10 ^ 2 ≡ 12345 * 10 ^ 3)
number_widening_keeps_values_example =
    number_widening_keeps_values " decimal( 10 ,2 )" "NUMBER(12,3)" 10 2 12 3 12345
      canonical_decimal canonical_wide decimal_widens (omega arith)
