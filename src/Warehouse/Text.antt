-- ===== src/Warehouse/Text.antt =====
-- The texts of the queries: identifiers, relations, types, and the SQL of each operation.
use changesafe.Prelude.{
  ℕ, zero, suc, ◌+◌, ◌/◌, ◌%◌, Bool, not, ◌&&◌, List, [], ◌∷◌, ◌++◌, String, Codes, codes, upper,
  ltb, ◌==◌, ◌=c=◌, elem_codes, all, length, map, is_empty, if◌then◌else◌, Result, ok, err, ◌>>=◌,
}
use changesafe.SqlTypes.Canonicalize.{SqlType, canonical_sql_type}
use changesafe.Domain.Change.{is_identifier}
use changesafe.Config.Settings.{split_on, join_codes}

-- `UnsafeWarehouseQuery`, `UnsupportedWarehouseConversion`, and the `ValueError` of a type
pub data QueryError : Type 0 where
  unsafe_query unsupported_conversion type_error : QueryError

abbrev pub Checked : Type 0
Checked = Result QueryError Codes

-- a text from its parts
unfoldable pub text_of : List Codes → Codes
text_of [] = []
text_of (part ∷ parts) = part ++ text_of parts

abbrev pub quoted : Codes → Codes
quoted value = 34 ∷ upper value ++ 34 ∷ []

unfoldable pub quote_identifier : Codes → Checked
unfolding is_identifier
quote_identifier value = if is_identifier value then ok (quoted value) else err unsafe_query

abbrev pub is_three_part : List Codes → Bool
is_three_part parts = length parts == 3 && all is_identifier parts

unfoldable pub normalize_relation : Codes → Checked
unfolding split_on join_codes is_identifier
normalize_relation relation =
    let parts = split_on b'.' relation in
    if is_three_part parts then ok (join_codes b'.' (map upper parts)) else err unsafe_query

-- each part quoted, or the first exception
unfoldable pub quote_all : List Codes → Result QueryError (List Codes)
unfolding quote_identifier
quote_all [] = ok []
quote_all (part ∷ parts) = do q ← quote_identifier part; qs ← quote_all parts; ok (q ∷ qs)

unfoldable pub render_relation : Codes → Checked
unfolding normalize_relation quote_all split_on join_codes
render_relation relation = do
  normalized ← normalize_relation relation
  parts ← quote_all (split_on b'.' normalized)
  ok (join_codes b'.' parts)

-- `SUPPORTED_TRY_CAST_TYPES`
abbrev pub supported_try_cast_types : List Codes
supported_try_cast_types =
    codes "BOOLEAN"
    ∷ codes "DATE"
    ∷ codes "FLOAT"
    ∷ codes "NUMBER"
    ∷ codes "TIME"
    ∷ codes "TIMESTAMP"
    ∷ codes "TIMESTAMP_LTZ"
    ∷ codes "TIMESTAMP_NTZ"
    ∷ codes "TIMESTAMP_TZ"
    ∷ codes "VARCHAR"
    ∷ []

unfoldable pub digits : ℕ → ℕ → Codes → Codes
digits zero n tail = tail
digits (suc fuel) n tail =
    let more = digits fuel (n / 10) ((48 + n % 10) ∷ tail) in
    if ltb n 10 then (48 + n) ∷ tail else more

-- `str(n)`; `n + 1` rounds are more than it has digits
unfoldable pub number_text : ℕ → Codes
unfolding digits
number_text n = digits (suc n) n []

-- `", ".join(str(parameter) for parameter in parameters)`
unfoldable pub parameters_text : List ℕ → Codes
unfolding number_text
parameters_text [] = []
parameters_text (n ∷ []) = number_text n
parameters_text (n ∷ m ∷ ns) = number_text n ++ codes ", " ++ parameters_text (m ∷ ns)

abbrev pub base_text : Codes → Codes
base_text base = if base =c= codes "FLOAT" then codes "DOUBLE" else base

-- the text of a supported type
unfoldable pub type_text : SqlType → Checked
unfolding parameters_text elem_codes ◌=c=◌
type_text t =
    if not (elem_codes t.base supported_try_cast_types)
    then err unsupported_conversion
    else if is_empty t.parameters
    then ok (base_text t.base)
    else ok (text_of (base_text t.base ∷ codes "(" ∷ parameters_text t.parameters ∷ codes ")" ∷ []))

-- `_render_try_cast_type`
unfoldable pub render_try_cast_type : String → Checked
unfolding type_text canonical_sql_type
render_try_cast_type value = elim (canonical_sql_type value) [
  | err e ↦ err type_error
  | ok t ↦ type_text t
]

unfoldable pub schema_probe_text : Codes → Codes → Codes
unfolding text_of
schema_probe_text field relation =
    text_of (codes "SELECT " ∷ field ∷ codes "\nFROM " ∷ relation ∷ codes "\nWHERE 1 = 0" ∷ [])

unfoldable pub rename_text : Codes → Codes → Codes → Codes
unfolding text_of
rename_text field new_field relation = text_of (
    codes "WITH projected AS (\n  SELECT "
    ∷ field
    ∷ codes " AS "
    ∷ new_field
    ∷ codes "\n  FROM "
    ∷ relation
    ∷ codes "\n)\nSELECT COUNT(*) AS rows_evaluated,\n       COUNT("
    ∷ new_field
    ∷ codes ") AS populated_row_count\nFROM projected"
    ∷ [])

unfoldable pub remove_text : Codes → Codes → Codes
unfolding text_of
remove_text field relation = text_of (
    codes "SELECT COUNT(*) AS rows_evaluated,\n       COUNT("
    ∷ field
    ∷ codes ") AS populated_row_count\nFROM "
    ∷ relation
    ∷ [])

-- `TRY_CAST(TO_VARCHAR(field) AS target)`
abbrev pub target_value : Codes → Codes → Codes
target_value field target =
    text_of (codes "TRY_CAST(TO_VARCHAR(" ∷ field ∷ codes ") AS " ∷ target ∷ codes ")" ∷ [])

unfoldable pub type_change_text : Codes → Codes → Codes → Codes → Codes
unfolding text_of
type_change_text field current_type target_type relation = text_of (
    codes "SELECT COUNT(*) AS rows_evaluated,\n       COUNT("
    ∷ field
    ∷ codes ") AS populated_row_count,\n       COUNT_IF(\n         "
    ∷ field
    ∷ codes " IS NOT NULL AND (\n           "
    ∷ target_value field target_type
    ∷ codes " IS NULL OR\n           TRY_CAST(\n             TO_VARCHAR("
    ∷ target_value field target_type
    ∷ codes ") AS "
    ∷ current_type
    ∷ codes "\n           ) IS DISTINCT FROM "
    ∷ field
    ∷ codes "\n         )\n       ) AS unsafe_row_count\nFROM "
    ∷ relation
    ∷ [])

-- the SQL functions, whose identifiers are quoted first
unfoldable pub schema_probe_sql : Codes → Codes → Checked
unfolding quote_identifier schema_probe_text
schema_probe_sql field relation = do q ← quote_identifier field; ok (schema_probe_text q relation)

unfoldable pub rename_sql : Codes → Codes → Codes → Checked
unfolding quote_identifier rename_text
rename_sql field new_field relation = do
  q ← quote_identifier field
  n ← quote_identifier new_field
  ok (rename_text q n relation)

unfoldable pub remove_sql : Codes → Codes → Checked
unfolding quote_identifier remove_text
remove_sql field relation = do q ← quote_identifier field; ok (remove_text q relation)

unfoldable pub type_change_sql : Codes → Codes → Codes → Codes → Checked
unfolding quote_identifier type_change_text
type_change_sql field current_type target_type relation = do
  q ← quote_identifier field
  ok (type_change_text q current_type target_type relation)
