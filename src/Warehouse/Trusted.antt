-- ===== src/Warehouse/Trusted.antt =====
-- The guard agrees with the builder: what is registered for a query of a plan is what the guard computes.
use changesafe.Prelude.{
  ◌≡◌, refl, sym, ap, ◌∙◌, subst, true, Option, none, some, List, [], ◌∷◌, String, =s=_refl, Codes,
  upper, elem_codes, Result, ok, ◌>>=◌, arith,
}
use changesafe.Domain.Change.{is_identifier}
use changesafe.Warehouse.Text.{
  QueryError, Checked, quoted, normalize_relation, quote_all, render_relation,
}
use changesafe.Warehouse.Contract.{
  WarehouseQuery, QueryContract, trusted_contract_sql, trusted_contract_columns,
}
use changesafe.Warehouse.Guard.{
  Parser, same_set, given_fields, semantic_fields, matches_contract, require_trusted,
  require_parsed, validate_read_only_query,
}
use changesafe.Warehouse.Plan.{
  PlanParts, destinations, upper_of, allowed_of, registered_query, validate_registered,
}
use changesafe.Warehouse.ReadOnly.{allowed-once}
use changesafe.Warehouse.Normal.{=c=_refl, same_list_refl, quote-upper}

-- the identifiers and the relation of a plan are in order
pub record IsPlanned (parts : PlanParts) : Type 0 where
  pub field_ok : is_identifier parts.field ≡ true
  pub new_field_ok : (f : Codes) → parts.new_field ≡ some f → is_identifier f ≡ true
  pub normal : normalize_relation parts.relation ≡ ok parts.relation
  pub rendered : render_relation parts.relation ≡ ok parts.rendered_relation

fields-same_set :
    (u : Codes) (o : Option Codes) → same_set (u ∷ destinations o) (u ∷ destinations o) ≡ true
unfolding same_set elem_codes
fields-same_set u none = ground (arith, =c=_refl u)
fields-same_set u (some f) = ground (arith, =c=_refl u, =c=_refl (upper f))

quote_destinations :
    (o : Option Codes)
    → ((f : Codes) → o ≡ some f → is_identifier f ≡ true)
    → (qs : List Codes) × (quote_all (destinations o) ≡ ok qs)
unfolding quote_all
quote_destinations none h = ([], refl)
quote_destinations (some f) h =
    (quoted f ∷ [], ap (λ (o : Checked). o >>= λ q. ok (q ∷ [])) (quote-upper f (h f refl)))

quote-allowed :
    (parts : PlanParts)
    → IsPlanned parts
    → (qs : List Codes) × (quote_all (allowed_of parts) ≡ ok qs)
unfolding quote_all
quote-allowed parts planned =
    let (qs, h) = quote_destinations parts.new_field planned.new_field_ok in
    (
      quoted parts.field ∷ qs,
      ap
            (λ (o : Checked).
              o >>= λ q. quote_all (destinations parts.new_field) >>= λ rest. ok (q ∷ rest))
            (quote-upper parts.field planned.field_ok)
          ∙ ap
              (λ (o : Result QueryError (List Codes)). o >>= λ rest. ok (quoted parts.field ∷ rest))
              h,
    )

destinations-of : (o : Option Codes) → destinations o ≡ given_fields (upper_of o)
destinations-of none = refl
destinations-of (some f) = refl

module _ (parts : PlanParts) (code : String) (columns : List Codes) (sql : Codes) where
  abbrev the_query : WarehouseQuery
  the_query = (registered_query parts code columns sql).0

  abbrev contract : QueryContract
  contract = (registered_query parts code columns sql).1

  query-matches : matches_contract the_query parts.relation (allowed_of parts) contract ≡ true
  unfolding matches_contract registered_query
  query-matches = ground (
    arith,
    =s=_refl code,
    =c=_refl sql,
    same_list_refl columns,
    =c=_refl parts.relation,
    fields-same_set (upper parts.field) parts.new_field,
  )

  semantic-same_set : same_set contract.allowed_fields (semantic_fields contract) ≡ true
  unfolding registered_query
  semantic-same_set =
      subst (λ ds. same_set (allowed_of parts) (upper parts.field ∷ ds) ≡ true)
        (destinations-of parts.new_field) (fields-same_set (upper parts.field) parts.new_field)

  contract-trusted :
      trusted_contract_sql contract ≡ ok sql
      → trusted_contract_columns contract ≡ ok columns
      → require_trusted contract ≡ ok sql
  unfolding require_trusted registered_query
  contract-trusted text names =
      rw (semantic-same_set, text, names, =c=_refl sql, same_list_refl columns)

  -- A registered query is refused only for what the parser says of it.
  pub registered-parsed :
      (parse : Parser)
      → IsPlanned parts
      → trusted_contract_sql contract ≡ ok sql
      → trusted_contract_columns contract ≡ ok columns
      → validate_registered parse parts (the_query, contract)
        ≡ require_parsed parse the_query parts.relation (allowed_of parts) sql
  unfolding validate_read_only_query
  registered-parsed parse planned text names =
      let (qs, quotes) = quote-allowed parts planned in
      let fields_match =
        subst (λ fields. matches_contract the_query parts.relation fields contract ≡ true)
          (sym (allowed-once parts)) query-matches in
      rw (planned.normal, quotes, fields_match, contract-trusted text names, allowed-once parts)
