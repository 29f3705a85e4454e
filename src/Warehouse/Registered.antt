-- ===== src/Warehouse/Registered.antt =====
-- The queries that the builder registers: their texts and columns are those of their contracts, and in
-- order.
use changesafe.Prelude.{
  map, all, is_distinct_codes, elem_codes, ◌=c=◌, ◌≡◌, refl, sym, ap, ◌∙◌, true, Option, none, some,
  List, [], ◌∷◌, String, ◌=s=◌, Codes, upper, ok, err, >>=-eq-ok, ok-injective, arith,
}
use changesafe.SqlTypes.Parts.{is_digit}
use changesafe.Domain.Change.{
  ChangeOperation, rename, remove, type_change, is_identifier, is_letter, same_operation,
}
use changesafe.Warehouse.Text.{
  Checked, quote_identifier, schema_probe_sql, rename_sql, remove_sql, type_change_sql,
}
use changesafe.Warehouse.Contract.{
  WarehouseQuery, QueryContract, aggregate_columns, type_aggregate_columns, trusted_contract_sql,
  trusted_contract_columns,
}
use changesafe.Warehouse.Plan.{
  PlanParts, or_unsafe, register, registered_query, operation_query, probe_query,
}
use changesafe.Warehouse.Clean.{IsClean, render_relation-IsClean}
use changesafe.Warehouse.CleanSql.{
  schema_probe-IsClean, rename-IsClean, remove-IsClean, type_change-IsClean,
}
use changesafe.Warehouse.Normal.{identifier-upper, quote-identifier, quote-upper}
use changesafe.Warehouse.Trusted.{IsPlanned}

-- result columns that the guard accepts: distinct identifiers
abbrev HasColumns : List Codes → Type 0
HasColumns columns =
    (is_distinct_codes (map upper columns) ≡ true) × (all is_identifier (map upper columns) ≡ true)

-- the query is registered with the text and the columns that its contract gives, and these are in order
abbrev pub IsTrusted : PlanParts → WarehouseQuery × QueryContract → Type 0
IsTrusted parts p =
    (code : String) × (columns : List Codes) × (sql : Codes) × (registered_query parts code columns
        sql
      ≡ p)
    × (trusted_contract_sql (registered_query parts code columns sql).1 ≡ ok sql)
    × (trusted_contract_columns (registered_query parts code columns sql).1 ≡ ok columns)
    × IsClean sql
    × HasColumns columns

aggregate-HasColumns : HasColumns aggregate_columns × HasColumns type_aggregate_columns
unfolding is_distinct_codes is_identifier is_letter is_digit upper elem_codes ◌=c=◌
aggregate-HasColumns = ((refl, refl), (refl, refl))

field-HasColumns : (f : Codes) → is_identifier f ≡ true → HasColumns (upper f ∷ [])
unfolding is_distinct_codes elem_codes
field-HasColumns f h = (refl, ground (arith, identifier-upper (upper f) (identifier-upper f h)))

register-ok :
    (parts : PlanParts) (code : String) (columns : List Codes) (r : Checked)
    (p : WarehouseQuery × QueryContract)
    → register parts code columns r ≡ ok p
    → (sql : Codes) × (r ≡ ok sql) × (registered_query parts code columns sql ≡ p)
register-ok parts code columns (ok sql) p h = (sql, refl, ok-injective h)
register-ok parts code columns (err e) p h = cc h

quote-same : (f : Codes) → is_identifier f ≡ true → quote_identifier (upper f) ≡ quote_identifier f
quote-same f h = quote-upper f h ∙ sym (quote-identifier f h)

or_unsafe-ok : (o : Option Codes) (f : Codes) → or_unsafe o ≡ ok f → o ≡ some f
or_unsafe-ok none f h = cc h
or_unsafe-ok (some g) f h = ap (λ x. some x) (ok-injective h)

pub probe-IsTrusted :
    (parts : PlanParts) (p : WarehouseQuery × QueryContract)
    → IsPlanned parts
    → probe_query parts ≡ ok p
    → IsTrusted parts p
unfolding probe_query trusted_contract_sql trusted_contract_columns registered_query
    schema_probe_sql ◌=s=◌
probe-IsTrusted parts p planned h =
    let code : String = "schema_probe" in
    let (sql, text, same) =
      register-ok parts code (upper parts.field ∷ [])
        (schema_probe_sql parts.field parts.rendered_relation) p h in
    (
      code,
      upper parts.field ∷ [],
      sql,
      same,
      rw (planned.rendered, quote-same parts.field planned.field_ok) text,
      refl,
      schema_probe-IsClean parts.rendered_relation
          (render_relation-IsClean parts.relation parts.rendered_relation planned.rendered)
          parts.field sql text,
      field-HasColumns parts.field planned.field_ok,
    )

-- the texts of the types, where they are given, are clean
unfoldable pub IsTyped : PlanParts → Type 0
IsTyped parts =
    ((t : Codes) → parts.current_type ≡ some t → IsClean t)
    × ((t : Codes) → parts.target_type ≡ some t → IsClean t)

pub operation-IsTrusted :
    (operation : ChangeOperation) (parts : PlanParts) (p : WarehouseQuery × QueryContract)
    → IsPlanned parts
    → IsTyped parts
    → parts.operation ≡ operation
    → operation_query operation parts ≡ ok p
    → IsTrusted parts p
unfolding operation_query trusted_contract_sql trusted_contract_columns registered_query rename_sql
    remove_sql type_change_sql same_operation ◌=s=◌ IsTyped
operation-IsTrusted rename parts p planned typed op h =
    let code : String = "rename_projection" in
    let (f, h1, r1) = >>=-eq-ok (or_unsafe parts.new_field) _ h in
    let given = or_unsafe-ok parts.new_field f h1 in
    let (sql, text, same) =
      register-ok parts code aggregate_columns (rename_sql parts.field f parts.rendered_relation) p
        r1 in
    (
      code,
      aggregate_columns,
      sql,
      same,
      rw
          (
            planned.rendered,
            op,
            given,
            quote-same parts.field planned.field_ok,
            quote-same f (planned.new_field_ok f given),
          )
          text,
      refl,
      rename-IsClean parts.rendered_relation
          (render_relation-IsClean parts.relation parts.rendered_relation planned.rendered)
          parts.field f sql text,
      aggregate-HasColumns.0,
    )
operation-IsTrusted remove parts p planned typed op h =
    let code : String = "remove_impact" in
    let (sql, text, same) =
      register-ok parts code aggregate_columns (remove_sql parts.field parts.rendered_relation) p
        h in
    (
      code,
      aggregate_columns,
      sql,
      same,
      rw (planned.rendered, op, quote-same parts.field planned.field_ok) text,
      refl,
      remove-IsClean parts.rendered_relation
          (render_relation-IsClean parts.relation parts.rendered_relation planned.rendered)
          parts.field sql text,
      aggregate-HasColumns.0,
    )
operation-IsTrusted type_change parts p planned typed op h =
    let code : String = "type_conversion" in
    let (current, h1, r1) = >>=-eq-ok (or_unsafe parts.current_type) _ h in
    let (target, h2, r2) = >>=-eq-ok (or_unsafe parts.target_type) _ r1 in
    let (sql, text, same) =
      register-ok parts code type_aggregate_columns
        (type_change_sql parts.field current target parts.rendered_relation) p r2 in
    (
      code,
      type_aggregate_columns,
      sql,
      same,
      rw
          (
            planned.rendered,
            op,
            or_unsafe-ok parts.current_type current h1,
            or_unsafe-ok parts.target_type target h2,
            quote-same parts.field planned.field_ok,
          )
          text,
      refl,
      type_change-IsClean parts.rendered_relation
          (render_relation-IsClean parts.relation parts.rendered_relation planned.rendered)
          parts.field current target sql
          (typed.0 current (or_unsafe-ok parts.current_type current h1))
          (typed.1 target (or_unsafe-ok parts.target_type target h2)) text,
      aggregate-HasColumns.1,
    )
