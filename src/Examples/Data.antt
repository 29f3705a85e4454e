-- ===== src/Examples/Data.antt =====
-- A change of a column, the metadata around it, and the results of its checks.
use changesafe.Prelude.{true, false, none, some, [], ◌∷◌, String}
use changesafe.Domain.Change.{ChangeRequest, rename}
use changesafe.Domain.Context.{ContextBundle, AffectedAsset, Datetime, live, exact_field, low}
use changesafe.Domain.Warehouse.{WarehouseCheck, WarehouseValidationResult, passed, aggregate}
use changesafe.Domain.Analysis.{
  RiskResult, medium, ArtifactBundle, ValidationReport, AnalysisResult,
}
use changesafe.Domain.Publication.{Decimal, PublicationLedgerEntry}

abbrev pub urn : String
urn = "urn:li:dataset:orders"

abbrev pub rename_change : ChangeRequest
rename_change = record {
  asset_urn = urn;
  operation = rename;
  field = "customer_id";
  new_field = some "client_id";
  old_type = none;
  new_type = none;
  source_commit = "abc123";
  requested_by = "ana";
}

abbrev pub dashboard : AffectedAsset
dashboard = record {
  urn = "urn:li:dashboard:revenue";
  name = "Revenue";
  entity_type = "dashboard";
  domain = some "Finance";
  field = none;
  is_executive = true;
  is_production_ml = false;
  lineage_degree = some 1;
  lineage_path = [];
  lineage_precision = exact_field;
}

abbrev pub retrieved : Datetime
retrieved = record { instant = 1_000_000; aware = true }

abbrev pub orders : ContextBundle
orders = record {
  target_urn = urn;
  target_name = "orders";
  target_domain = some "Sales";
  field = "customer_id";
  field_type = "NUMBER(10,0)";
  schema_fields =
      record { name = "customer_id"; data_type = "NUMBER(10,0)"; nullable = false } ∷ [];
  upstream_assets = [];
  downstream_assets = dashboard ∷ [];
  owners =
      record { urn = "urn:li:corpuser:ana"; name = "Ana"; ownership_type = "TECHNICAL_OWNER" } ∷ [];
  field_tags = [];
  glossary_terms = [];
  usage_tier = low;
  query_count = 3;
  evidence = [];
  provenance = record {
    mode = live;
    retrieved_at = retrieved;
    adapter_version = "1";
    snapshot_hash = none;
  };
}

abbrev pub report : ValidationReport
report = record { is_passed = true; checks = [] }

abbrev pub no_artifacts : ArtifactBundle
no_artifacts = record { files = []; manifest_hash = none }

abbrev pub zero_usd : Decimal
zero_usd = record { coefficient = 0; places = 0 }

-- 0.0000125
abbrev pub small_usd : Decimal
small_usd = record { coefficient = 125; places = 7 }

abbrev pub entry : PublicationLedgerEntry
entry = record {
  idempotency_key = "key";
  run_id = "r1";
  artifact_hash = "aa";
  approved_at = 7;
  publication_mode = none;
  github_required = false;
  datahub_required = false;
  github_repository = none;
  github_base_branch = none;
  datahub_server = none;
  datahub_target_urn = none;
  branch = none;
  pull_request_url = none;
  writeback = none;
  receipt = none;
  completed = false;
  created_at = 7;
  updated_at = 7;
}

abbrev passed_check : String → WarehouseCheck
passed_check code = record {
  code = code;
  label = "Check";
  is_passed = true;
  retryable = false;
  detail = "Passed.";
  observed_count = none;
}

abbrev pub evidence : WarehouseValidationResult
evidence = record {
  status = passed;
  mode = aggregate;
  environment_label = "test";
  operation = rename;
  field = "customer_id";
  aggregate_query_started = some true;
  binding_fingerprint = some "aa";
  started_at = some retrieved;
  completed_at = some retrieved;
  rows_evaluated = some 5;
  populated_row_count = some 4;
  unsafe_row_count = none;
  query_ids = "q1" ∷ [];
  elapsed_ms = some 0;
  checks =
      passed_check "warehouse_identity"
      ∷ passed_check "warehouse_schema"
      ∷ passed_check "rename_projection"
      ∷ [];
}

abbrev pub rename_result : RiskResult
rename_result = record {
  score = 40;
  band = medium;
  factors = [];
  recommended_strategy = "reviewed_migration";
}

abbrev pub analysis : AnalysisResult
analysis = record {
  context = orders;
  risk = rename_result;
  artifacts = no_artifacts;
  validation = report;
  publication_eligible = true;
  impacts = [];
  warehouse_validation = evidence;
  approval_blockers = [];
}
