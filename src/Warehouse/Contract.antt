-- ===== src/Warehouse/Contract.antt =====
-- A query of a plan, and the contract that the builder registers for it.
use changesafe.Prelude.{
  ◌&&◌, ◌||◌, Option, none, some, List, [], ◌∷◌, String, ◌=s=◌, Codes, codes, if◌then◌else◌, Result,
  ok, err, ◌>>=◌,
}
use changesafe.Domain.Change.{ChangeOperation, rename, remove, type_change, same_operation}
use changesafe.Warehouse.Text.{
  QueryError, unsafe_query, Checked, render_relation, schema_probe_sql, rename_sql, remove_sql,
  type_change_sql,
}

pub record WarehouseQuery : Type 0 where
  pub code : String
  pub sql : Codes
  pub expected_columns : List Codes

-- `_QueryContract`, less the reference to its query
pub record QueryContract : Type 0 where
  pub operation : ChangeOperation
  pub code : String
  pub sql : Codes
  pub expected_columns : List Codes
  pub relation : Codes
  pub allowed_fields : List Codes
  pub source_field : Codes
  pub destination_field : Option Codes
  pub current_type : Option Codes
  pub target_type : Option Codes

abbrev pub aggregate_columns : List Codes
aggregate_columns = codes "ROWS_EVALUATED" ∷ codes "POPULATED_ROW_COUNT" ∷ []

abbrev pub type_aggregate_columns : List Codes
type_aggregate_columns =
    codes "ROWS_EVALUATED" ∷ codes "POPULATED_ROW_COUNT" ∷ codes "UNSAFE_ROW_COUNT" ∷ []

-- a part that has to be given
abbrev pub with_given : Option Codes → (Codes → Checked) → Checked
with_given none next = err unsafe_query
with_given (some value) next = next value

abbrev pub contract_sql : QueryContract → Codes → Checked
contract_sql c relation =
    if c.code =s= "schema_probe"
    then schema_probe_sql c.source_field relation
    else if c.code =s= "rename_projection" && same_operation c.operation rename
    then with_given c.destination_field (λ d. rename_sql c.source_field d relation)
    else if c.code =s= "remove_impact" && same_operation c.operation remove
    then remove_sql c.source_field relation
    else if c.code =s= "type_conversion" && same_operation c.operation type_change
    then with_given c.current_type (λ current.
      with_given c.target_type (λ target. type_change_sql c.source_field current target relation))
    else err unsafe_query

unfoldable pub trusted_contract_sql : QueryContract → Checked
unfolding render_relation schema_probe_sql rename_sql remove_sql type_change_sql same_operation
trusted_contract_sql c = do relation ← render_relation c.relation; contract_sql c relation

unfoldable pub trusted_contract_columns : QueryContract → Result QueryError (List Codes)
trusted_contract_columns c =
    if c.code =s= "schema_probe"
    then ok (c.source_field ∷ [])
    else if c.code =s= "rename_projection" || c.code =s= "remove_impact"
    then ok aggregate_columns
    else if c.code =s= "type_conversion"
    then ok type_aggregate_columns
    else err unsafe_query
