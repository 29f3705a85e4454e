-- ===== src/Orchestrator/Ports.antt =====
-- What `ChangeSafeOrchestrator` is built from: its settings, the ports it calls, and the clock. A port
-- may raise. Loading metadata, generating artifacts, verifying them and querying the warehouse are
-- arguments of the model.
use changesafe.Prelude.{ℕ, Bool, Option, String, Result}
use changesafe.Domain.Change.{ChangeRequest}
use changesafe.Domain.Context.{ContextBundle, Datetime}
use changesafe.Domain.Warehouse.{WarehouseValidationResult}
use changesafe.Domain.Analysis.{RiskResult, ArtifactBundle, ValidationReport}
use changesafe.Domain.Publication.{Decimal, LlmUsage}
use changesafe.Store.States.{RunState}

-- `ContextLoadError`, and any other exception
pub data Failure : Type 0 where
  context_load_failed analysis_failed : Failure

-- `GenerationResult` of generation/service.py
pub record GenerationResult : Type 0 where
  pub artifacts : ArtifactBundle
  pub usage : Option LlmUsage
  pub release_reservation : Bool

-- how the task of the warehouse port ends: with a result, by `WarehouseValidationError`, not within the
-- timeout (or by `TimeoutError`), or by any other exception
pub data WarehouseOutcome : Type 0 where
  validated : WarehouseValidationResult → WarehouseOutcome
  validation_error : String → String → Bool → WarehouseOutcome
  timed_out crashed : WarehouseOutcome

abbrev pub ContextPort : Type 0
ContextPort = ChangeRequest → Result Failure ContextBundle

-- `none` of a port is an exception, which is no `ContextLoadError`
pub record Orchestrator : Type 0 where
  pub context_port : ContextPort
  pub snapshot_context_port : Option ContextPort
  pub generate_with_usage : ChangeRequest → ContextBundle → RiskResult → Option GenerationResult
  pub verify_artifacts : ArtifactBundle → ChangeRequest → ContextBundle → Option ValidationReport
  pub warehouse_port : Option (ChangeRequest → ContextBundle → WarehouseOutcome)
  pub require_live_evidence : Bool
  pub require_warehouse : Bool
  pub warehouse_max_age_seconds : ℕ
  pub warehouse_environment_label : String
  pub warehouse_binding_map : String → Option String
  pub llm_reservation_usd : Decimal
  pub llm_budget_usd : Option Decimal
  -- the readings of the clock: of a transition to a state, of the policy, and of the other calls
  pub moment : RunState → ℕ
  pub policy_now : Datetime
  pub started_at : Datetime
  pub completed_at : Datetime
  pub now : ℕ
