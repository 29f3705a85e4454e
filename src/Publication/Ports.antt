-- ===== src/Publication/Ports.antt =====
-- What `PublicationService` is built from and what it works on: its settings and ports, the world that
-- it changes, and the exceptions of an approval. The publisher, the writeback, the verification of
-- artifacts, the digests and the clock are arguments of the model.
use changesafe.Prelude.{ℕ, Bool, Option, List, ◌∷◌, String, Codes, Result, ok, err}
use changesafe.Exec.{Exec}
use changesafe.Domain.Change.{ChangeRequest}
use changesafe.Domain.Context.{ContextBundle, Datetime, EvidenceRef}
use changesafe.Domain.Analysis.{
  RiskBand, RiskFactor, ArtifactBundle, ValidationCheck, ValidationReport,
}
use changesafe.Domain.Publication.{DataHubReceipt, PublicationLedgerEntry}
use changesafe.Store.States.{RunState}
use changesafe.Store.Tables.{RunStore, StoreError}
use changesafe.Config.Settings.{Settings}
use changesafe.Publication.Authorize.{Denial}

-- how a call of the publisher ends: with a text, by `GitHubPublicationError`, or by another exception
pub data GitHubOutcome : Type 0 where
  answered : String → GitHubOutcome
  github_error : String → Bool → GitHubOutcome
  crashed : GitHubOutcome

pub record GitHubPublisher : Type 0 where
  pub ensure_branch : String → ChangeRequest → ArtifactBundle → GitHubOutcome
  pub ensure_pull_request : String → ChangeRequest → ArtifactBundle → GitHubOutcome

pub record DecisionWriteback : Type 0 where
  pub run_id : String
  pub change : ChangeRequest
  pub risk_score : ℕ
  pub risk_band : RiskBand
  pub artifact_hash : String
  pub approved_at : ℕ
  pub pull_request_url : Option String
  pub idempotency_key : String
  pub risk_factors : List RiskFactor
  pub evidence : List EvidenceRef
  pub validation_checks : List ValidationCheck
  pub migration_summary : String
  pub rollback_summary : String

pub data WritebackEnding : Type 0 where
  written : DataHubReceipt → WritebackEnding
  authorization_error transport_error load_error other_error : WritebackEnding

-- a call of `writeback`: the receipts that it hands to `on_progress`, and how it ends; an exception of
-- `on_progress` ends it
pub record Writeback : Type 0 where
  pub reported : List DataHubReceipt
  pub ending : WritebackEnding

pub record Service : Type 0 where
  pub settings : Settings
  pub github_publisher : Option GitHubPublisher
  pub writeback : DecisionWriteback → Option DataHubReceipt → Writeback
  pub verify_artifacts : ArtifactBundle → ChangeRequest → ContextBundle → Option ValidationReport
  pub sha256 : Codes → String
  pub publication_key : ChangeRequest → String → String → String
  -- the readings of the clock: of the policy, of the approval, of the save of an entry, and of a
  -- transition to a state
  pub policy_now : Datetime
  pub now : ℕ
  pub saved_at : PublicationLedgerEntry → ℕ
  pub moment : RunState → ℕ

pub data ExternalCall : Type 0 where
  ensure_branch_call : String → ExternalCall
  ensure_pull_request_call : String → ExternalCall
  writeback_call : String → ExternalCall

-- the tables, and the calls made to GitHub and DataHub, the latest first
pub record World : Type 0 where
  pub store : RunStore
  pub external_calls : List ExternalCall

-- the exceptions of `approve`: `KeyError`, the cases of `PublicationStateError`, `ApprovalDenied`,
-- the `ValidationError` of a new entry, `UnsafeArtifactPath`, those of the writeback's inputs and of the store, and `PublicationFailure`
pub data PublicationError : Type 0 where
  unknown_run no_artifacts policy_unmet manifest_missing wrong_state : PublicationError
  foreign_entry intent_missing state_conflict receipt_conflict : PublicationError
  denied : Denial → PublicationError
  invalid_entry unsafe_path missing_artifact invalid_decision : PublicationError
  store_failed : StoreError → PublicationError
  publication_failure : String → String → Bool → PublicationError

abbrev pub of_store : {A : Type 0} → Result StoreError A → Result PublicationError A
of_store (ok a) = ok a
of_store (err e) = err (store_failed e)

-- a call of the store
abbrev pub on_store : {A : Type 0} → Exec RunStore StoreError A → Exec World PublicationError A
on_store m w = let (r, t) = m w.store in (of_store r, record w { store = t })

-- a call of a port
abbrev pub note : ExternalCall → World → World
note call w = record w { external_calls = call ∷ w.external_calls }
