-- ===== src/Orchestrator/Stages.antt =====
-- The block of the `try` in `_analyze_from_loading`. Each stage is one function, which ends with the
-- call of the next.
use changesafe.Prelude.{
  Bool, true, false, ◌&&◌, Option, none, some, List, [], ◌∷◌, String, ◌=s=◌, is_empty, Result, ok,
  err, if◌then◌else◌,
}
use changesafe.Exec.{Exec, pure, lift, ◌>>=◌, ◌>>◌}
use changesafe.Domain.Change.{ChangeRequest}
use changesafe.Domain.Context.{ContextBundle, ContextMode, live, snapshot}
use changesafe.Domain.Warehouse.{WarehouseValidationResult}
use changesafe.Domain.Analysis.{
  RiskResult, ArtifactBundle, ValidationReport, ApprovalBlocker, AnalysisResult,
  normalize_incomplete_warehouse_evidence,
}
use changesafe.Domain.Publication.{LlmUsage}
use changesafe.Policy.Evaluate.{PolicySettings, evaluate_approval_policy}
use changesafe.Risk.Score.{RiskError, score_change}
use changesafe.Impact.Classify.{classify_impacts}
use changesafe.Store.States.{
  RunState, scoring_risk, generating, validating, validating_warehouse, awaiting_approval, failed,
}
use changesafe.Store.Tables.{RunRow, RunStore, StoreError}
use changesafe.Store.Runs.{Update, plain, transition}
use changesafe.Store.Usage.{record_llm_usage, release_llm_reservation}
use changesafe.Orchestrator.Ports.{
  Orchestrator, ContextPort, Failure, analysis_failed, WarehouseOutcome,
}
use changesafe.Orchestrator.Warehouse.{not_run_result, validate_warehouse}

-- an exception of the store is not a `ContextLoadError`
abbrev pub from_store_result : {A : Type 0} → Result StoreError A → Result Failure A
from_store_result (ok a) = ok a
from_store_result (err e) = err analysis_failed

abbrev pub from_store : {A : Type 0} → Exec RunStore StoreError A → Exec RunStore Failure A
from_store m s = let (r, t) = m s in (from_store_result r, t)

-- what a port that raises no `ContextLoadError` gives
abbrev pub or_fail : {A : Type 0} → Option A → Result Failure A
or_fail none = err analysis_failed
or_fail (some a) = ok a

-- the call of `transition` that an analysis makes
abbrev pub move : Orchestrator → String → RunState → Update → Exec RunStore Failure RunRow
move o id state u = from_store (transition id state u (o.moment state))

abbrev pub settings_of : Orchestrator → ChangeRequest → PolicySettings
settings_of o change = record {
  require_live_evidence = o.require_live_evidence;
  require_warehouse = o.require_warehouse;
  warehouse_max_age_seconds = o.warehouse_max_age_seconds;
  expected_binding_fingerprint = o.warehouse_binding_map change.asset_urn;
}

-- the update of a blocked analysis
abbrev pub blocked_update : AnalysisResult → ApprovalBlocker → Update
blocked_update analysis b =
    record (plain (
      if b.code =s= "VERIFICATION_FAILED"
      then "Artifact validation failed"
      else "Approval policy blocked the analysis")) {
        analysis = some analysis;
        error = some (record { code = b.code; message = b.message; retryable = b.retryable });
      }

abbrev pub decide_with :
    Orchestrator → String → AnalysisResult → List ApprovalBlocker → Exec RunStore Failure RunRow
decide_with o id analysis [] =
    move o id awaiting_approval
      (record (plain "Waiting for the accountable owner") { analysis = some analysis })
decide_with o id analysis (b ∷ bs) = move o id failed (blocked_update analysis b)

-- from the call of `evaluate_approval_policy` on
unfoldable pub decide :
    Orchestrator
    → String
    → ChangeRequest
    → ContextBundle
    → RiskResult
    → ArtifactBundle
    → ValidationReport
    → WarehouseValidationResult
    → Exec RunStore Failure RunRow
decide o id change context risk artifacts validation warehouse =
    let blockers =
      evaluate_approval_policy (settings_of o change) change context validation warehouse
        o.policy_now in
    let analysis = normalize_incomplete_warehouse_evidence (record {
      context = context;
      risk = risk;
      artifacts = artifacts;
      validation = validation;
      publication_eligible = validation.is_passed && is_empty blockers;
      impacts = classify_impacts change context;
      warehouse_validation = warehouse;
      approval_blockers = blockers;
    }) in
    decide_with o id analysis blockers

abbrev pub is_live : ContextMode → Bool
is_live live = true
is_live snapshot = false

-- the port that the analysis queries, if it does
abbrev pub queried : {A : Type 0} → Option A → Bool → Option A
queried port true = port
queried port false = none

abbrev pub warehouse_stage :
    Orchestrator
    → String
    → ChangeRequest
    → ContextBundle
    → WarehouseValidationResult
    → Option (ChangeRequest → ContextBundle → WarehouseOutcome)
    → Exec RunStore Failure WarehouseValidationResult
warehouse_stage o id change context unrun none = pure unrun
warehouse_stage o id change context unrun (some port) = do
  move o id validating_warehouse (plain "Validating aggregate warehouse evidence")
  lift (or_fail (validate_warehouse o port change context))

-- from the transition to `validating` on
unfoldable pub validate_from :
    Orchestrator
    → String
    → ChangeRequest
    → ContextBundle
    → RiskResult
    → ArtifactBundle
    → Exec RunStore Failure RunRow
validate_from o id change context risk artifacts = do
  move o id validating (plain "Proving the generated change is safe")
  validation ← lift (or_fail (o.verify_artifacts artifacts change context))
  unrun ← lift (or_fail (not_run_result o change))
  warehouse ←
      warehouse_stage o id change context unrun
        (queried o.warehouse_port (validation.is_passed && is_live context.provenance.mode))
  decide o id change context risk artifacts validation warehouse

-- the usage and `release_reservation` of a generation
abbrev pub usage_stage :
    Orchestrator → String → Option LlmUsage → Bool → Exec RunStore StoreError Unit
usage_stage o id (some usage) release = record_llm_usage id usage o.now
usage_stage o id none true = release_llm_reservation id o.now
usage_stage o id none false = pure tt

-- from the transition to `generating` on
unfoldable pub generate_from :
    Orchestrator
    → String
    → ChangeRequest
    → ContextBundle
    → RiskResult
    → Exec RunStore Failure RunRow
generate_from o id change context risk = do
  move o id generating (plain "Preparing a compatible migration")
  generation ← lift (or_fail (o.generate_with_usage change context risk))
  from_store (usage_stage o id generation.usage generation.release_reservation)
  validate_from o id change context risk generation.artifacts

-- a `ValueError` of the scoring is any other exception
abbrev pub of_risk : {A : Type 0} → Result RiskError A → Result Failure A
of_risk (ok a) = ok a
of_risk (err e) = err analysis_failed

-- the block of the `try`
unfoldable pub analyze_body : Orchestrator → RunRow → ContextPort → Exec RunStore Failure RunRow
analyze_body o run port = do
  context ← lift (port run.request)
  move o run.run_id scoring_risk
      (record (plain "Classifying business and technical impact") { evidence = context.evidence })
  risk ← lift (of_risk (score_change run.request context))
  generate_from o run.run_id run.request context risk
