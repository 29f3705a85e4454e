-- ===== src/Warehouse/Plan.antt =====
-- `_validated_context_field` and `build_validation_plan`.
use changesafe.Prelude.{
  Bool, not, ◌&&◌, Option, none, some, List, [], ◌∷◌, String, ◌=s=◌, Codes, codes, casefold, upper,
  ◌=c=◌, any, filter, Result, ok, err, ◌>>=◌, ◌>>◌, guard,
}
use changesafe.SqlTypes.Canonicalize.{SqlType, canonical_sql_type}
use changesafe.SqlTypes.Kind.{same_type}
use changesafe.Domain.Change.{ChangeOperation, rename, remove, type_change, ChangeRequest}
use changesafe.Domain.Context.{ContextBundle, SchemaField}
use changesafe.Warehouse.Text.{
  QueryError, unsafe_query, Checked, quote_identifier, normalize_relation, render_relation,
  render_try_cast_type, schema_probe_sql, rename_sql, remove_sql, type_change_sql,
}
use changesafe.Warehouse.Contract.{
  WarehouseQuery, QueryContract, aggregate_columns, type_aggregate_columns,
}
use changesafe.Warehouse.Guard.{Parser, validate_read_only_query}

abbrev pub same_fold : String → String → Bool
same_fold a b = casefold a =c= casefold b

-- `canonical_sql_type`, whose `ValueError` is an unsafe query
abbrev pub checked_type : String → Result QueryError SqlType
checked_type value = elim (canonical_sql_type value) [ err e ↦ err unsafe_query | ok t ↦ ok t ]

abbrev pub or_unsafe : {A : Type 0} → Option A → Result QueryError A
or_unsafe none = err unsafe_query
or_unsafe (some a) = ok a

-- the only field of the schema with the name
abbrev pub single_field : List SchemaField → Result QueryError SchemaField
single_field (f ∷ []) = ok f
single_field _ = err unsafe_query

-- the branches on the operation
unfoldable pub operation_allowed :
    ChangeOperation → ChangeRequest → ContextBundle → SqlType → Result QueryError Unit
unfolding quote_identifier casefold ◌=c=◌ canonical_sql_type same_type
operation_allowed rename change context context_type = do
  new_field ← or_unsafe change.new_field
  quote_identifier (codes new_field)
  guard (not (same_fold change.field new_field)) unsafe_query
  guard (not (any (λ (f : SchemaField). same_fold f.name new_field) context.schema_fields))
      unsafe_query
operation_allowed remove change context context_type = ok tt
operation_allowed type_change change context context_type = do
  old_type ← or_unsafe change.old_type
  new_type ← or_unsafe change.new_type
  current ← checked_type old_type
  guard (same_type current context_type) unsafe_query

-- `_validated_context_field`
unfoldable pub validated_context_field : ChangeRequest → ContextBundle → Result QueryError Unit
unfolding operation_allowed
validated_context_field change context = do
  guard (change.asset_urn =s= context.target_urn && same_fold change.field context.field)
      unsafe_query
  field ←
      single_field
        (filter (λ (f : SchemaField). same_fold f.name change.field) context.schema_fields)
  context_type ← checked_type context.field_type
  schema_type ← checked_type field.data_type
  guard (same_type context_type schema_type) unsafe_query
  operation_allowed change.operation change context context_type

-- what the queries of a plan share
pub record PlanParts : Type 0 where
  pub operation : ChangeOperation
  pub field : Codes
  pub relation : Codes
  pub rendered_relation : Codes
  pub new_field : Option Codes
  pub current_type : Option Codes
  pub target_type : Option Codes

abbrev pub upper_of : Option Codes → Option Codes
upper_of none = none
upper_of (some f) = some (upper f)

abbrev pub destination_of : PlanParts → Option Codes
destination_of parts = upper_of parts.new_field

-- the destination of a rename, if there is one
abbrev pub destinations : Option Codes → List Codes
destinations none = []
destinations (some f) = upper f ∷ []

abbrev pub allowed_of : PlanParts → List Codes
allowed_of parts = upper parts.field ∷ destinations parts.new_field

-- `registered_query`: the query and its contract
unfoldable pub registered_query :
    PlanParts → String → List Codes → Codes → WarehouseQuery × QueryContract
registered_query parts code columns sql = (
  record { code = code; sql = sql; expected_columns = columns },
  record {
    operation = parts.operation;
    code = code;
    sql = sql;
    expected_columns = columns;
    relation = parts.relation;
    allowed_fields = allowed_of parts;
    source_field = upper parts.field;
    destination_field = destination_of parts;
    current_type = parts.current_type;
    target_type = parts.target_type;
  },
)

abbrev pub Registered : Type 0
Registered = Result QueryError (WarehouseQuery × QueryContract)

abbrev pub register : PlanParts → String → List Codes → Checked → Registered
register parts code columns (ok sql) = ok (registered_query parts code columns sql)
register parts code columns (err e) = err e

-- the query of the operation, after the probe of the schema
unfoldable pub operation_query : ChangeOperation → PlanParts → Registered
unfolding rename_sql remove_sql type_change_sql registered_query
operation_query rename parts = do
  new_field ← or_unsafe parts.new_field
  register parts "rename_projection" aggregate_columns
      (rename_sql parts.field new_field parts.rendered_relation)
operation_query remove parts =
    register parts "remove_impact" aggregate_columns
      (remove_sql parts.field parts.rendered_relation)
operation_query type_change parts = do
  current ← or_unsafe parts.current_type
  target ← or_unsafe parts.target_type
  register parts "type_conversion" type_aggregate_columns
      (type_change_sql parts.field current target parts.rendered_relation)

unfoldable pub probe_query : PlanParts → Registered
unfolding schema_probe_sql registered_query
probe_query parts =
    register parts "schema_probe" (upper parts.field ∷ [])
      (schema_probe_sql parts.field parts.rendered_relation)

-- the texts of the two types of a type change
unfoldable pub type_texts_in :
    ChangeOperation → ChangeRequest → Result QueryError (Option Codes × Option Codes)
unfolding render_try_cast_type
type_texts_in type_change change = do
  old_type ← or_unsafe change.old_type
  new_type ← or_unsafe change.new_type
  current ← render_try_cast_type old_type
  target ← render_try_cast_type new_type
  ok (some current, some target)
type_texts_in _ change = ok (none, none)

unfoldable pub type_texts : ChangeRequest → Result QueryError (Option Codes × Option Codes)
unfolding type_texts_in
type_texts change = type_texts_in change.operation change

abbrev pub codes_of : Option String → Option Codes
codes_of none = none
codes_of (some f) = some (codes f)

-- `build_validation_plan` up to the first query
unfoldable pub plan_parts : ChangeRequest → ContextBundle → Codes → Result QueryError PlanParts
unfolding quote_identifier validated_context_field normalize_relation render_relation type_texts
plan_parts change context relation = do
  quote_identifier (codes change.field)
  validated_context_field change context
  normalized ← normalize_relation relation
  rendered ← render_relation normalized
  types ← type_texts change
  ok (record {
    operation = change.operation;
    field = codes change.field;
    relation = normalized;
    rendered_relation = rendered;
    new_field = codes_of change.new_field;
    current_type = types.0;
    target_type = types.1;
  })

pub record WarehouseValidationPlan : Type 0 where
  pub relation : Codes
  pub relation_fingerprint : String
  pub queries : List WarehouseQuery

-- the guard of a query that the builder has registered
abbrev pub validate_registered :
    Parser → PlanParts → WarehouseQuery × QueryContract → Result QueryError Unit
validate_registered parse parts (query, contract) =
    validate_read_only_query parse (some contract) query parts.relation (allowed_of parts)

unfoldable pub fingerprint_relation : (Codes → String) → Codes → Result QueryError String
unfolding normalize_relation
fingerprint_relation sha256 relation = do
  normalized ← normalize_relation relation
  ok (sha256 normalized)

-- `build_validation_plan`; the digest is an argument
unfoldable pub build_validation_plan :
    Parser
    → (Codes → String)
    → ChangeRequest
    → ContextBundle
    → Codes
    → Result QueryError WarehouseValidationPlan
unfolding plan_parts probe_query operation_query validate_read_only_query fingerprint_relation
build_validation_plan parse sha256 change context relation = do
  parts ← plan_parts change context relation
  probe ← probe_query parts
  query ← operation_query parts.operation parts
  validate_registered parse parts probe
  validate_registered parse parts query
  fingerprint ← fingerprint_relation sha256 parts.relation
  ok (record {
    relation = parts.relation;
    relation_fingerprint = fingerprint;
    queries = probe.0 ∷ query.0 ∷ [];
  })
