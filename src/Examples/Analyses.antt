-- ===== src/Examples/Analyses.antt =====
-- Scores, impacts, the policy and whole analyses at concrete inputs.
use changesafe.Prelude.{
  is_distinct, ◌≡◌, ◌≢◌, ◌↔◌, refl, ◌≤◌, true, false, none, some, [], ◌∷◌, ◌=s=◌, ok, map,
}
use changesafe.Domain.Change.{ChangeRequest, type_change}
use changesafe.Domain.Analysis.{
  normalize_incomplete_warehouse_evidence, RiskResult, ImpactAssessment,
}
use changesafe.Domain.Context.{ContextBundle}
use changesafe.Policy.Evaluate.{evaluate_approval_policy, PolicySettings}
use changesafe.Policy.Approval.{IsApprovable, evaluate_approval_policy_iff}
use changesafe.Risk.Score.{score_change}
use changesafe.Risk.Bounds.{IsSound, score_change-IsSound, score_change_total}
use changesafe.Risk.Monotone.{with_downstream, score_change_mono}
use changesafe.Impact.Classify.{classify_impacts}
use changesafe.Impact.Evidence.{categories, AllGrounded, classify_impacts_grounded}
use changesafe.Store.States.{context_fallback_required, loading_context}
use changesafe.Store.Tables.{RunRow, RunStore, empty, find_run}
use changesafe.Store.Runs.{new_run}
use changesafe.Orchestrator.Ports.{WarehouseOutcome, validation_error, Orchestrator}
use changesafe.Domain.Constructed.{fingerprint_valid}
use changesafe.Orchestrator.Warehouse.{validate_warehouse, not_run_fields}
use changesafe.Orchestrator.Analyze.{analyze, analyze_from_loading}
use changesafe.Orchestrator.Outcome.{IsSettled, analysis_settles}
use changesafe.Orchestrator.Whole.{analyze_settles}
use changesafe.Domain.Warehouse.{
  warehouse_passed_evidence_is_complete, evidence_present, status_matches_evidence, operation_check,
}
use changesafe.Store.Scrub.{run_from_row, mark_warehouse_evidence_incomplete}
use changesafe.Store.Reading.{run_from_row_evidence, run_from_row_once}
use changesafe.Orchestrator.Analyze.{continue_with_snapshot}
use changesafe.Orchestrator.Queried.{IsReturned, validate_warehouse-IsReturned}
use changesafe.Orchestrator.Fallback.{fallback_settles}
use changesafe.Examples.Data.{
  evidence, analysis, rename_change, orders, dashboard, report, no_artifacts, retrieved, zero_usd,
}

rename_is_no_type_change : rename_change.operation ≢ type_change
rename_is_no_type_change h = cc h

rename_scored : (r : RiskResult) × (score_change rename_change orders ≡ ok r)
rename_scored = score_change_total rename_change orders rename_is_no_type_change

score_change_total_example : (r : RiskResult) × (score_change rename_change orders ≡ ok r)
score_change_total_example = score_change_total rename_change orders rename_is_no_type_change

abbrev rename_risk : RiskResult
rename_risk = rename_scored.0

score_change-IsSound_example : IsSound rename_risk
score_change-IsSound_example = score_change-IsSound rename_change orders rename_risk rename_scored.1

score_change_mono_example :
    (r' : RiskResult) × (score_change rename_change (with_downstream dashboard orders) ≡ ok r')
    × (rename_risk.score ≤ r'.score)
score_change_mono_example =
    score_change_mono rename_change orders dashboard rename_risk rename_scored.1

classify_impacts_grounded_example :
    (map (λ (a : ImpactAssessment). a.category) (classify_impacts rename_change orders)
      ≡ categories)
    × AllGrounded orders.target_urn (classify_impacts rename_change orders)
classify_impacts_grounded_example = classify_impacts_grounded rename_change orders refl

abbrev pub orchestrator : Orchestrator
orchestrator = record {
  context_port = λ change. ok orders;
  snapshot_context_port = none;
  generate_with_usage = λ change context risk.
      some (record { artifacts = no_artifacts; usage = none; release_reservation = true });
  verify_artifacts = λ artifacts change context. some report;
  warehouse_port = none;
  require_live_evidence = true;
  require_warehouse = false;
  warehouse_max_age_seconds = 900;
  warehouse_environment_label = "test";
  warehouse_binding_map = λ urn. none;
  llm_reservation_usd = zero_usd;
  llm_budget_usd = none;
  moment = λ state. 5;
  policy_now = retrieved;
  started_at = retrieved;
  completed_at = retrieved;
  now = 5;
}

abbrev settings : PolicySettings
settings = record {
  require_live_evidence = true;
  require_warehouse = false;
  warehouse_max_age_seconds = 900;
  expected_binding_fingerprint = none;
}

evaluate_approval_policy_iff_example :
    (evaluate_approval_policy settings rename_change orders report
        (not_run_fields orchestrator rename_change)
        retrieved
      ≡ [])
    ↔ IsApprovable settings rename_change orders report
        (not_run_fields orchestrator rename_change)
        retrieved
evaluate_approval_policy_iff_example =
    evaluate_approval_policy_iff settings rename_change orders report
      (not_run_fields orchestrator rename_change) retrieved

abbrev created_row : RunRow
created_row = new_run "r1" rename_change none 1

abbrev created_tables : RunStore
created_tables = record empty { runs = created_row ∷ [] }

abbrev loading_row : RunRow
loading_row = record created_row { state = loading_context }

abbrev loading_tables : RunStore
loading_tables = record empty { runs = loading_row ∷ [] }

created_found : find_run created_tables "r1" ≡ some created_row
unfolding find_run ◌=s=◌
created_found = refl

loading_found : find_run loading_tables "r1" ≡ some loading_row
unfolding find_run ◌=s=◌
loading_found = refl

analysis_settles_example :
    IsSettled orchestrator "r1" rename_change false
      (analyze_from_loading orchestrator loading_row orchestrator.context_port false loading_tables)
analysis_settles_example =
    analysis_settles orchestrator loading_row orchestrator.context_port false loading_tables
      (loading_row, loading_found, refl)

analyze_settles_example :
    IsSettled orchestrator "r1" rename_change false (analyze orchestrator "r1" created_tables)
analyze_settles_example = analyze_settles orchestrator created_row created_tables created_found refl

abbrev analysed_row : RunRow
analysed_row = record created_row { analysis = some analysis }

analysis_read : (run_from_row analysed_row).analysis ≡ some analysis
unfolding run_from_row mark_warehouse_evidence_incomplete normalize_incomplete_warehouse_evidence
    status_matches_evidence warehouse_passed_evidence_is_complete evidence_present is_distinct ◌=s=◌
    operation_check
analysis_read = refl

run_from_row_evidence_example : warehouse_passed_evidence_is_complete evidence ≡ true
run_from_row_evidence_example = run_from_row_evidence analysed_row analysis analysis_read refl refl

run_from_row_once_example : run_from_row (run_from_row analysed_row) ≡ run_from_row analysed_row
run_from_row_once_example = run_from_row_once analysed_row

abbrev with_snapshot : Orchestrator
with_snapshot = record orchestrator { snapshot_context_port = some orchestrator.context_port }

abbrev waiting_row : RunRow
waiting_row = record created_row { state = context_fallback_required }

abbrev waiting_tables : RunStore
waiting_tables = record empty { runs = waiting_row ∷ [] }

waiting_found : find_run waiting_tables "r1" ≡ some waiting_row
unfolding find_run ◌=s=◌
waiting_found = refl

fallback_settles_example :
    (row : RunRow) × (t : RunStore) × (continue_with_snapshot with_snapshot "r1" waiting_tables
      ≡ (ok row, t))
    × (row.state ≡ loading_context)
    × (row.error ≡ none)
    × IsSettled with_snapshot "r1" rename_change false
        (analyze_from_loading with_snapshot row orchestrator.context_port false t)
fallback_settles_example =
    fallback_settles with_snapshot orchestrator.context_port waiting_row waiting_tables refl
      waiting_found refl

-- a port that ends with an error whose code is no code of a check
abbrev shouts : ChangeRequest → ContextBundle → WarehouseOutcome
shouts change context = validation_error "Access DENIED" "The role may not read the table." false

unbound : fingerprint_valid (orchestrator.warehouse_binding_map rename_change.asset_urn) ≡ true
unfolding fingerprint_valid
unbound = refl

validate_warehouse-IsReturned_example :
    IsReturned (validate_warehouse orchestrator shouts rename_change orders)
validate_warehouse-IsReturned_example =
    validate_warehouse-IsReturned orchestrator shouts rename_change orders refl refl unbound refl
