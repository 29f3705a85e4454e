-- ===== src/Publication/Review.antt =====
-- `_require_current_policy`, and `approve` up to its first write: whether the run may be published, and
-- by which entry of the ledger.
use changesafe.Prelude.{
  ◌==◌, length, codes, Bool, true, false, ◌&&◌, not, Option, none, some, List, String, ◌=s=◌,
  is_empty, is_some, Result, ok, err, guard, ◌>>=◌, ◌>>◌, if◌then◌else◌,
}
use changesafe.Domain.Analysis.{RiskResult, ValidationReport, ApprovalBlocker, AnalysisResult}
use changesafe.Domain.Equal.{same_risk, same_impacts, same_validation, same_blockers}
use changesafe.Domain.Publication.{PublicationMode, PublicationReceipt, PublicationLedgerEntry}
use changesafe.Policy.Evaluate.{PolicySettings, evaluate_approval_policy}
use changesafe.Risk.Score.{RiskError, score_change}
use changesafe.Impact.Classify.{classify_impacts}
use changesafe.Store.States.{
  RunState, awaiting_approval, publication_failed, preparing_preview, publishing, completed,
}
use changesafe.Store.Tables.{RunRow, RunStore}
use changesafe.Store.Runs.{get}
use changesafe.Store.Ledger.{get_publication}
use changesafe.Config.Settings.{warehouse_binding_fingerprint}
use changesafe.Publication.Intent.{
  is_live_intent, is_preview_intent, configured_intent, with_intent, bind_intent, intent_matches,
}
use changesafe.Publication.Authorize.{Denial, authorize}
use changesafe.Publication.Ports.{
  invalid_entry, Service, PublicationError, unknown_run, no_artifacts, policy_unmet,
  manifest_missing, wrong_state, foreign_entry, intent_missing, state_conflict, receipt_conflict,
  denied,
}

abbrev pub or_raise : {A : Type 0} → PublicationError → Option A → Result PublicationError A
or_raise e none = err e
or_raise e (some a) = ok a

abbrev pub settings_of : Service → RunRow → PolicySettings
settings_of p run = record {
  require_live_evidence = p.settings.live_evidence_required;
  require_warehouse = p.settings.warehouse_validation_required;
  warehouse_max_age_seconds = p.settings.warehouse_evidence_max_age_seconds;
  expected_binding_fingerprint =
      warehouse_binding_fingerprint p.sha256 p.settings run.request.asset_urn;
}

abbrev pub current_blockers :
    Service → RunRow → AnalysisResult → ValidationReport → List ApprovalBlocker
current_blockers p run a validation =
    evaluate_approval_policy (settings_of p run) run.request a.context validation
      a.warehouse_validation p.policy_now

-- the comparison of what was recorded with what is computed now
unfoldable pub is_current : Service → RunRow → AnalysisResult → RiskResult → ValidationReport → Bool
is_current p run a risk validation =
    validation.is_passed
    && same_risk risk a.risk
    && same_impacts (classify_impacts run.request a.context) a.impacts
    && same_validation validation a.validation
    && same_blockers (current_blockers p run a validation) a.approval_blockers
    && is_empty (current_blockers p run a validation)
    && a.publication_eligible

abbrev pub of_risk : Result RiskError RiskResult → Result PublicationError RiskResult
of_risk (ok r) = ok r
of_risk (err e) = err policy_unmet

unfoldable pub require_current_policy :
    Service → RunRow → AnalysisResult → Result PublicationError Unit
unfolding is_current
require_current_policy p run a = do
  risk ← of_risk (score_change run.request a.context)
  validation ← or_raise policy_unmet (p.verify_artifacts a.artifacts run.request a.context)
  guard (is_current p run a risk validation) policy_unmet

abbrev pub is_approvable : RunState → Bool
is_approvable awaiting_approval = true
is_approvable publication_failed = true
is_approvable preparing_preview = true
is_approvable publishing = true
is_approvable completed = true
is_approvable _ = false

-- a new entry, before its intent
abbrev new_entry : Service → RunRow → String → String → PublicationLedgerEntry
new_entry p run key hash = record {
  idempotency_key = key;
  run_id = run.run_id;
  artifact_hash = hash;
  approved_at = p.now;
  publication_mode = none;
  github_required = false;
  datahub_required = false;
  github_repository = none;
  github_base_branch = none;
  datahub_server = none;
  datahub_target_urn = none;
  branch = none;
  pull_request_url = none;
  writeback = none;
  receipt = none;
  completed = false;
  created_at = p.now;
  updated_at = p.now;
}

-- the declared limits of a key and of a hash
abbrev pub digests_valid : String → String → Bool
digests_valid key hash = length (codes key) == 64 && length (codes hash) == 64

-- the entry that the ledger has, or a new one
unfoldable pub entry_of :
    Service
    → RunRow
    → String
    → String
    → Option PublicationLedgerEntry
    → Result PublicationError PublicationLedgerEntry
entry_of p run key hash (some entry) =
    if not entry.completed && not (entry.run_id =s= run.run_id) then err foreign_entry else ok entry
entry_of p run key hash none =
    if digests_valid key hash
    then ok (with_intent (configured_intent p.settings run) (new_entry p run key hash))
    else err invalid_entry

-- the state of the run conflicts with the intent
abbrev pub conflicts : RunState → Option PublicationMode → Bool
conflicts publishing mode = not (is_live_intent mode)
conflicts preparing_preview mode = not (is_preview_intent mode)
conflicts _ mode = false

abbrev pub of_denial : Result Denial Unit → Result PublicationError Unit
of_denial (ok u) = ok u
of_denial (err d) = err (denied d)

-- `existing.receipt`, if `existing.completed`
abbrev pub completed_receipt : Option PublicationLedgerEntry → Option PublicationReceipt
completed_receipt none = none
completed_receipt (some entry) = if entry.completed then entry.receipt else none

-- what is approved: the run, its analysis, the bound entry, and the receipt to be used again
pub record Plan : Type 0 where
  pub run : RunRow
  pub analysis : AnalysisResult
  pub entry : PublicationLedgerEntry
  pub reused : Option PublicationReceipt

unfoldable pub review_entry :
    Service
    → Option String
    → RunRow
    → AnalysisResult
    → Option PublicationLedgerEntry
    → PublicationLedgerEntry
    → Result PublicationError Plan
review_entry p token run a existing entry = do
  guard (not (conflicts run.state entry.publication_mode)) state_conflict
  of_denial
      (authorize p.settings token run.request.asset_urn (is_live_intent entry.publication_mode))
  guard
      (not (
        is_some (completed_receipt existing)
        && not (entry.run_id =s= run.run_id)
        && not (intent_matches p.settings run entry)))
      receipt_conflict
  ok (record { run = run; analysis = a; entry = entry; reused = completed_receipt existing })

unfoldable pub review_run :
    Service
    → Option String
    → RunRow
    → AnalysisResult
    → String
    → RunStore
    → Result PublicationError Plan
unfolding entry_of review_entry
review_run p token run a hash s =
    let key = p.publication_key run.request run.request.source_commit hash in
    let existing = get_publication key s in
    do
      guard (is_approvable run.state) wrong_state
      entry ← entry_of p run key hash existing
      bound ← or_raise intent_missing (bind_intent p.settings run entry)
      review_entry p token run a existing bound

-- `approve` up to the first write
unfoldable pub review : Service → String → Option String → RunStore → Result PublicationError Plan
unfolding require_current_policy review_run
review p id token s = do
  run ← or_raise unknown_run (get id s)
  a ← or_raise no_artifacts run.analysis
  require_current_policy p run a
  hash ← or_raise manifest_missing a.artifacts.manifest_hash
  review_run p token run a hash s
