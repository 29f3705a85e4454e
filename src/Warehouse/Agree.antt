-- ===== src/Warehouse/Agree.antt =====
-- The queries of a plan are what the trusted functions give for their contracts.
use changesafe.Prelude.{
  none-ne-some, map, all, false, is_distinct_codes, some-injective, ◌≡◌, refl, subst, true, Option,
  none, some, String, Codes, codes, upper, ok, >>=-eq-ok, >>-eq-ok, ok-injective, arith,
}
use changesafe.Domain.Change.{
  ChangeOperation, rename, remove, type_change, ChangeRequest, is_identifier, new_field_valid,
}
use changesafe.Domain.Context.{ContextBundle}
use changesafe.Warehouse.Text.{
  quote_identifier, normalize_relation, render_relation, render_try_cast_type,
}
use changesafe.Warehouse.Contract.{WarehouseQuery, QueryContract}
use changesafe.Warehouse.Guard.{Parser, require_parsed, has_delimiter}
use changesafe.Warehouse.Plan.{
  PlanParts, allowed_of, codes_of, or_unsafe, registered_query, operation_query, probe_query,
  type_texts, type_texts_in, validated_context_field, plan_parts, validate_registered,
}
use changesafe.Warehouse.Clean.{IsClean, IsClean-has_delimiter, render_try_cast_type-IsClean}
use changesafe.Warehouse.Normal.{normalize-once}
use changesafe.Warehouse.Trusted.{IsPlanned, registered-parsed}
use changesafe.Warehouse.Registered.{IsTrusted, probe-IsTrusted, IsTyped, operation-IsTrusted}

-- what the guard of a registered query comes to: its text has no delimiter, its result columns are distinct
-- identifiers, and the rest is what the parser says
abbrev pub IsParsedOnly : Parser → PlanParts → WarehouseQuery × QueryContract → Type 0
IsParsedOnly parse parts p =
    (validate_registered parse parts p
      ≡ require_parsed parse p.0 parts.relation (allowed_of parts) p.0.sql)
    × (has_delimiter p.0.sql ≡ false)
    × (is_distinct_codes (map upper p.0.expected_columns) ≡ true)
    × (all is_identifier (map upper p.0.expected_columns) ≡ true)

trusted-IsParsedOnly :
    (parse : Parser) (parts : PlanParts) (p : WarehouseQuery × QueryContract)
    → IsPlanned parts
    → IsTrusted parts p
    → IsParsedOnly parse parts p
unfolding registered_query
trusted-IsParsedOnly parse parts p planned
      (code, columns, sql, same, text, names, clean, (distinct_names, identifiers)) =
    subst (IsParsedOnly parse parts) same (
      registered-parsed parts code columns sql parse planned text names,
      IsClean-has_delimiter sql clean,
      distinct_names,
      identifiers,
    )

quoted-identifier : (s q : Codes) → quote_identifier s ≡ ok q → is_identifier s ≡ true
unfolding quote_identifier
quoted-identifier s q h = ground (arith, h)

destination-identifier :
    (o : Option String)
    → new_field_valid o ≡ true
    → (f : Codes) → codes_of o ≡ some f
    → is_identifier f ≡ true
unfolding new_field_valid
destination-identifier none h f e = cc e
destination-identifier (some s) h f e =
    subst (λ g. is_identifier g ≡ true) (some-injective e) (ground (arith, h))

plan_parts-IsPlanned :
    (change : ChangeRequest) (context : ContextBundle) (relation : Codes) (parts : PlanParts)
    → new_field_valid change.new_field ≡ true
    → plan_parts change context relation ≡ ok parts
    → IsPlanned parts
unfolding plan_parts
plan_parts-IsPlanned change context relation parts valid h =
    let (q, h1, r1) = >>-eq-ok (quote_identifier (codes change.field)) _ h in
    let (u, h2, r2) = >>-eq-ok (validated_context_field change context) _ r1 in
    let (normalized, h3, r3) = >>=-eq-ok (normalize_relation relation) _ r2 in
    let (rendered, h4, r4) = >>=-eq-ok (render_relation normalized) _ r3 in
    let (types, h5, r5) = >>=-eq-ok (type_texts change) _ r4 in
    subst IsPlanned (ok-injective r5) (record {
      field_ok = quoted-identifier (codes change.field) q h1;
      new_field_ok = destination-identifier change.new_field valid;
      normal = normalize-once relation normalized h3;
      rendered = h4;
    })

-- the texts of types that are given are clean
AreClean : Option Codes × Option Codes → Type 0
AreClean (a, b) = ((t : Codes) → a ≡ some t → IsClean t) × ((t : Codes) → b ≡ some t → IsClean t)

some-IsClean : (s : Codes) → IsClean s → (t : Codes) → some s ≡ some t → IsClean t
some-IsClean s h t same = subst IsClean (some-injective same) h

none-IsClean : (t : Codes) → ◌≡◌ {A = Option Codes} none (some t) → IsClean t
none-IsClean t same = absurd (none-ne-some same)

type_texts-AreClean :
    (operation : ChangeOperation) (change : ChangeRequest) (texts : Option Codes × Option Codes)
    → type_texts_in operation change ≡ ok texts
    → AreClean texts
unfolding type_texts_in AreClean
type_texts-AreClean type_change change texts h =
    let (old_type, h1, r1) = >>=-eq-ok (or_unsafe change.old_type) _ h in
    let (new_type, h2, r2) = >>=-eq-ok (or_unsafe change.new_type) _ r1 in
    let (current, h3, r3) = >>=-eq-ok (render_try_cast_type old_type) _ r2 in
    let (target, h4, r4) = >>=-eq-ok (render_try_cast_type new_type) _ r3 in
    subst AreClean (ok-injective r4) (
      some-IsClean current (render_try_cast_type-IsClean old_type current h3),
      some-IsClean target (render_try_cast_type-IsClean new_type target h4),
    )
type_texts-AreClean rename change texts h =
    subst AreClean (ok-injective h) (none-IsClean, none-IsClean)
type_texts-AreClean remove change texts h =
    subst AreClean (ok-injective h) (none-IsClean, none-IsClean)

plan_parts-IsTyped :
    (change : ChangeRequest) (context : ContextBundle) (relation : Codes) (parts : PlanParts)
    → plan_parts change context relation ≡ ok parts
    → IsTyped parts
unfolding plan_parts type_texts IsTyped AreClean
plan_parts-IsTyped change context relation parts h =
    let (q, h1, r1) = >>-eq-ok (quote_identifier (codes change.field)) _ h in
    let (u, h2, r2) = >>-eq-ok (validated_context_field change context) _ r1 in
    let (normalized, h3, r3) = >>=-eq-ok (normalize_relation relation) _ r2 in
    let (rendered, h4, r4) = >>=-eq-ok (render_relation normalized) _ r3 in
    let (texts, h5, r5) = >>=-eq-ok (type_texts change) _ r4 in
    subst IsTyped (ok-injective r5) (type_texts-AreClean change.operation change texts h5)

-- For a request whose destination, if it has one, is an identifier, each query that the builder has
-- registered has a text without a delimiter or comment marker and result columns that are distinct
-- identifiers, and the guard comes to what the parser says of that text: the identity, the contract, the
-- fields and the relation always agree.
pub registered_queries_agree :
    (parse : Parser) (change : ChangeRequest) (context : ContextBundle) (relation : Codes)
    (parts : PlanParts) (probe query : WarehouseQuery × QueryContract)
    → new_field_valid change.new_field ≡ true
    → plan_parts change context relation ≡ ok parts
    → probe_query parts ≡ ok probe
    → operation_query parts.operation parts ≡ ok query
    → IsParsedOnly parse parts probe × IsParsedOnly parse parts query
registered_queries_agree parse change context relation parts probe query valid planned built_probe
      built_query =
    let p = plan_parts-IsPlanned change context relation parts valid planned in
    (
      trusted-IsParsedOnly parse parts probe p (probe-IsTrusted parts probe p built_probe),
      trusted-IsParsedOnly parse parts query p (
          operation-IsTrusted parts.operation parts query p
            (plan_parts-IsTyped change context relation parts planned) refl built_query),
    )
