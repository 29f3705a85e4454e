-- ===== src/Examples/Queries.antt =====
-- Plans of queries and patches at concrete inputs.
use changesafe.Prelude.{
  ◌≡◌, refl, ok, err, ℕ, true, false, none, some, Option, List, [], ◌∷◌, String, Codes, codes,
  if◌then◌else◌, ◌==◌,
}
use changesafe.Domain.Change.{ChangeRequest, new_field_valid}
use changesafe.Warehouse.Contract.{WarehouseQuery, QueryContract}
use changesafe.Warehouse.Guard.{Parser, Statement, ColumnRef}
use changesafe.Warehouse.Plan.{
  PlanParts, WarehouseValidationPlan, plan_parts, probe_query, operation_query,
  build_validation_plan,
}
use changesafe.Warehouse.Guarded.{AllGuarded}
use changesafe.Warehouse.ReadOnly.{fields_of, build_validation_plan_read_only}
use changesafe.Warehouse.Agree.{IsParsedOnly, registered_queries_agree}
use changesafe.Publication.Patch.{PathKind, path_kind, build_unified_patch}
use changesafe.Publication.Kinds.{count, kinds_of, AreSafe, build_unified_patch_one_of_each}
use changesafe.Examples.Data.{rename_change, orders}
use changesafe.Examples.Publications.{artifacts}

abbrev relation : Codes
relation = codes "SALES.PUBLIC.ORDERS"

abbrev column : Codes → ColumnRef
column name = record { table = []; db = []; catalog = []; name = name; is_quoted = true }

abbrev statement : List Codes → List ColumnRef → List Codes → Codes → Statement
statement ctes columns selects sql = record {
  is_select = true;
  cte_names = ctes;
  tables = record { catalog = codes "SALES"; db = codes "PUBLIC"; name = codes "ORDERS" } ∷ [];
  has_join = false;
  has_subquery = false;
  columns = columns;
  named_selects = selects;
  rendered = sql;
}

-- a parser that knows the two queries of the rename, by how they start
abbrev parser : Parser
parser [] = none
parser (c ∷ sql) =
    if c == b'W'
    then some (
        statement (codes "projected" ∷ [])
          (column (codes "CUSTOMER_ID") ∷ column (codes "CLIENT_ID") ∷ [])
          (codes "rows_evaluated" ∷ codes "populated_row_count" ∷ []) (c ∷ sql)
        ∷ [])
    else some
        (statement [] (column (codes "CUSTOMER_ID") ∷ []) (codes "CUSTOMER_ID" ∷ []) (c ∷ sql) ∷ [])

abbrev digest : Codes → String
digest text = "digest"

abbrev no_query : WarehouseQuery × QueryContract
no_query = (
  record { code = ""; sql = []; expected_columns = [] },
  record {
    operation = rename_change.operation;
    code = "";
    sql = [];
    expected_columns = [];
    relation = [];
    allowed_fields = [];
    source_field = [];
    destination_field = none;
    current_type = none;
    target_type = none;
  },
)

abbrev parts : PlanParts
parts = elim (plan_parts rename_change orders relation) [
  | ok p ↦ p
  | err e ↦ record {
    operation = rename_change.operation;
    field = [];
    relation = [];
    rendered_relation = [];
    new_field = none;
    current_type = none;
    target_type = none;
  }
]

abbrev probe : WarehouseQuery × QueryContract
probe = elim (probe_query parts) [ ok q ↦ q | err e ↦ no_query ]

abbrev query : WarehouseQuery × QueryContract
query = elim (operation_query parts.operation parts) [ ok q ↦ q | err e ↦ no_query ]

abbrev plan : WarehouseValidationPlan
plan = elim (build_validation_plan parser digest rename_change orders relation) [
  | ok p ↦ p
  | err e ↦ record { relation = []; relation_fingerprint = ""; queries = [] }
]

abbrev patch : String
patch = elim (build_unified_patch artifacts) [ some text ↦ text | none ↦ "" ]

checks :
    (build_validation_plan parser digest rename_change orders relation ≡ ok plan)
    × (new_field_valid rename_change.new_field ≡ true)
    × (plan_parts rename_change orders relation ≡ ok parts)
    × (probe_query parts ≡ ok probe)
    × (operation_query parts.operation parts ≡ ok query)
    × (build_unified_patch artifacts ≡ some patch)
unfolding changesafe.Warehouse.Plan.build_validation_plan
    changesafe.Publication.Patch.build_unified_patch changesafe.Domain.Change.new_field_valid
    changesafe.Prelude.◌=s=◌ changesafe.SqlTypes.Parts.normalized_parts
checks = (refl, refl, refl, refl, refl, refl)

build_validation_plan_read_only_example :
    AllGuarded parser plan.relation (fields_of rename_change) plan.queries
build_validation_plan_read_only_example =
    build_validation_plan_read_only parser digest rename_change orders relation plan checks.0

registered_queries_agree_example : IsParsedOnly parser parts probe × IsParsedOnly parser parts query
registered_queries_agree_example =
    registered_queries_agree parser rename_change orders relation parts probe query checks.1
      checks.2 checks.3 checks.4

build_unified_patch_one_of_each_example :
    ((k : PathKind) → count k (kinds_of artifacts.files) ≡ 1) × AreSafe artifacts.files
build_unified_patch_one_of_each_example = build_unified_patch_one_of_each artifacts patch checks.5
