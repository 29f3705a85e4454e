-- ===== src/Warehouse/ReadOnly.antt =====
-- What every query of a plan is allowed to read.
use changesafe.Prelude.{
  ◌≡◌, refl, sym, ap, ◌∙◌, subst, ℕ, not, Option, none, some, List, [], ◌∷◌, String, Codes, codes,
  upper, upper_code, =c=_iff, map, is_empty, ok, err, guard, >>=-eq-ok, >>-eq-ok, ok-injective,
  arith,
}
use changesafe.Domain.Change.{ChangeOperation, rename, remove, type_change, ChangeRequest}
use changesafe.Domain.Context.{ContextBundle}
use changesafe.Warehouse.Text.{
  Checked, quote_identifier, render_relation, schema_probe_sql, rename_sql, remove_sql,
  type_change_sql, unsafe_query, normalize_relation, quote_all,
}
use changesafe.Warehouse.Contract.{WarehouseQuery, QueryContract}
use changesafe.Warehouse.Guard.{Parser, matches_contract, require_trusted, validate_read_only_query}
use changesafe.Warehouse.Plan.{
  PlanParts, codes_of, register, registered_query, or_unsafe, type_texts, validated_context_field,
  destinations, allowed_of, plan_parts, probe_query, operation_query, validate_registered,
  fingerprint_relation, WarehouseValidationPlan, build_validation_plan,
}
use changesafe.Warehouse.Guarded.{IsGuarded, AllGuarded, parsed-IsGuarded, guard-true}

upper_code-once : (c : ℕ) → upper_code (upper_code c) ≡ upper_code c
unfolding upper_code
upper_code-once c = ground arith

pub upper-once : (s : Codes) → upper (upper s) ≡ upper s
unfolding upper
upper-once [] = refl
upper-once (c ∷ s) = ground (arith, upper_code-once c, upper-once s)

destination-once :
    (field : Codes) (o : Option Codes)
    → map upper (upper field ∷ destinations o) ≡ upper field ∷ destinations o
destination-once field none = ap (λ x. x ∷ []) (upper-once field)
destination-once field (some d) =
    ap (λ x. x ∷ upper (upper d) ∷ []) (upper-once field)
    ∙ ap (λ x. upper field ∷ x ∷ []) (upper-once d)

pub allowed-once : (parts : PlanParts) → map upper (allowed_of parts) ≡ allowed_of parts
allowed-once parts = destination-once parts.field parts.new_field

validate-IsGuarded :
    (parse : Parser) (parts : PlanParts) (query : WarehouseQuery) (c : QueryContract)
    → c.relation ≡ parts.relation
    → validate_registered parse parts (query, c) ≡ ok tt
    → IsGuarded parse parts.relation (allowed_of parts) query
unfolding validate_read_only_query matches_contract
validate-IsGuarded parse parts query c same h =
    let fields = map upper (allowed_of parts) in
    let (normalized, h1, r1) = >>=-eq-ok (normalize_relation parts.relation) _ h in
    let (u2, h2, r2) = >>-eq-ok (guard (not (is_empty fields)) unsafe_query) _ r1 in
    let (qs, h3, r3) = >>-eq-ok (quote_all (allowed_of parts)) _ r2 in
    let (u4, h4, r4) =
      >>-eq-ok (guard (matches_contract query normalized fields c) unsafe_query) _ r3 in
    let (trusted, h5, r5) = >>=-eq-ok (require_trusted c) _ r4 in
    let matches = guard-true (matches_contract query normalized fields c) unsafe_query u4 h4 in
    let relation = (=c=_iff normalized c.relation).0 (ground (arith, matches)) in
    subst (λ r. IsGuarded parse r (allowed_of parts) query) (relation ∙ same)
      (subst (λ fs. IsGuarded parse normalized fs query) (allowed-once parts)
        (parsed-IsGuarded parse query normalized fields trusted r5))

-- the selected field, and the destination of a rename
abbrev pub fields_of : ChangeRequest → List Codes
fields_of change = upper (codes change.field) ∷ destinations (codes_of change.new_field)

parts-fields :
    (change : ChangeRequest) (context : ContextBundle) (relation : Codes) (parts : PlanParts)
    → plan_parts change context relation ≡ ok parts
    → allowed_of parts ≡ fields_of change
unfolding plan_parts
parts-fields change context relation parts h =
    let (q, h1, r1) = >>-eq-ok (quote_identifier (codes change.field)) _ h in
    let (u, h2, r2) = >>-eq-ok (validated_context_field change context) _ r1 in
    let (normalized, h3, r3) = >>=-eq-ok (normalize_relation relation) _ r2 in
    let (rendered, h4, r4) = >>=-eq-ok (render_relation normalized) _ r3 in
    let (types, h5, r5) = >>=-eq-ok (type_texts change) _ r4 in
    sym (ap allowed_of (ok-injective r5))

register-relation :
    (parts : PlanParts) (code : String) (columns : List Codes) (sql : Checked)
    (p : WarehouseQuery × QueryContract)
    → register parts code columns sql ≡ ok p
    → p.1.relation ≡ parts.relation
unfolding registered_query
register-relation parts code columns (ok sql) p h =
    sym (ap (λ (x : WarehouseQuery × QueryContract). x.1.relation) (ok-injective h))
register-relation parts code columns (err e) p h = cc h

operation-relation :
    (operation : ChangeOperation) (parts : PlanParts) (p : WarehouseQuery × QueryContract)
    → operation_query operation parts ≡ ok p
    → p.1.relation ≡ parts.relation
unfolding operation_query
operation-relation rename parts p h =
    let (new_field, h1, r1) = >>=-eq-ok (or_unsafe parts.new_field) _ h in
    register-relation parts _ _ (rename_sql parts.field new_field parts.rendered_relation) p r1
operation-relation remove parts p h =
    register-relation parts _ _ (remove_sql parts.field parts.rendered_relation) p h
operation-relation type_change parts p h =
    let (current, h1, r1) = >>=-eq-ok (or_unsafe parts.current_type) _ h in
    let (target, h2, r2) = >>=-eq-ok (or_unsafe parts.target_type) _ r1 in
    register-relation parts _ _ (type_change_sql parts.field current target parts.rendered_relation)
      p r2

probe-relation :
    (parts : PlanParts) (p : WarehouseQuery × QueryContract)
    → probe_query parts ≡ ok p
    → p.1.relation ≡ parts.relation
unfolding probe_query
probe-relation parts p h =
    register-relation parts _ _ (schema_probe_sql parts.field parts.rendered_relation) p h

-- Every query of a plan that is built has no delimiter of statements or comments, and its text is, by what
-- the parser says, one SELECT without joins and subqueries, over one table, the relation of the plan,
-- whose columns are quoted, not qualified, and the selected field or the destination of the rename.
pub build_validation_plan_read_only :
    (parse : Parser) (sha256 : Codes → String) (change : ChangeRequest) (context : ContextBundle)
    (relation : Codes) (plan : WarehouseValidationPlan)
    → build_validation_plan parse sha256 change context relation ≡ ok plan
    → AllGuarded parse plan.relation (fields_of change) plan.queries
unfolding build_validation_plan AllGuarded
build_validation_plan_read_only parse sha256 change context relation plan h =
    let (parts, h1, r1) = >>=-eq-ok (plan_parts change context relation) _ h in
    let (probe, h2, r2) = >>=-eq-ok (probe_query parts) _ r1 in
    let (query, h3, r3) = >>=-eq-ok (operation_query parts.operation parts) _ r2 in
    let (u4, h4, r4) = >>-eq-ok (validate_registered parse parts probe) _ r3 in
    let (u5, h5, r5) = >>-eq-ok (validate_registered parse parts query) _ r4 in
    let (fingerprint, h6, r6) = >>=-eq-ok (fingerprint_relation sha256 parts.relation) _ r5 in
    subst
      (λ (x : WarehouseValidationPlan). AllGuarded parse x.relation (fields_of change) x.queries)
      (ok-injective r6)
      (subst (λ fields. AllGuarded parse parts.relation fields (probe.0 ∷ query.0 ∷ []))
        (parts-fields change context relation parts h1)
        (
          validate-IsGuarded parse parts probe.0 probe.1 (probe-relation parts probe h2) h4,
          (
            validate-IsGuarded parse parts query.0 query.1
                (operation-relation parts.operation parts query h3) h5,
            tt,
          ),
        ))
