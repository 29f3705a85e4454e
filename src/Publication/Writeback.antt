-- ===== src/Publication/Writeback.antt =====
-- The second half of `_approve_live`: the writeback to DataHub.
use changesafe.Prelude.{
  Bool, true, false, not, ◌&&◌, Option, none, some, List, [], ◌∷◌, String, codes, starts_with, leb,
  ◌==◌, ◌=s=◌, length, find?, Result, ok, err, if◌then◌else◌,
}
use changesafe.Exec.{lift, ◌>>=◌}
use changesafe.Domain.Analysis.{ArtifactFile}
use changesafe.Domain.Publication.{DataHubReceipt, PublicationReceipt, PublicationLedgerEntry}
use changesafe.Config.Settings.{datahub_writeback_enabled}
use changesafe.Publication.Intent.{is_written}
use changesafe.Publication.Ports.{
  Service, World, PublicationError, missing_artifact, invalid_decision, note, DecisionWriteback,
  WritebackEnding, written, authorization_error, transport_error, load_error, other_error,
  writeback_call,
}
use changesafe.Publication.Review.{Plan}
use changesafe.Publication.Ends.{Step, save, fail, finish}

-- the content of the first file whose path passes a test
abbrev pub content_of : (String → Bool) → List (String × ArtifactFile) → Option String
content_of p files = elim (find? (λ (file : String × ArtifactFile). p file.0) files) [
  | none ↦ none
  | some file ↦ some file.1.content
]

-- the declared limits of `DecisionWriteback`
abbrev within_limits : Plan → PublicationLedgerEntry → Bool
within_limits plan entry =
    leb 8 (length (codes plan.run.run_id))
    && leb plan.analysis.risk.score 100
    && length (codes entry.artifact_hash) == 64
    && length (codes entry.idempotency_key) == 64

abbrev pub decision_with :
    Plan
    → PublicationLedgerEntry
    → Option String
    → Option String
    → Result PublicationError DecisionWriteback
decision_with plan entry (some migration) (some rollback) =
    let a = plan.analysis in
    if within_limits plan entry
    then ok (record {
      run_id = plan.run.run_id;
      change = plan.run.request;
      risk_score = a.risk.score;
      risk_band = a.risk.band;
      artifact_hash = entry.artifact_hash;
      approved_at = entry.approved_at;
      pull_request_url = entry.pull_request_url;
      idempotency_key = entry.idempotency_key;
      risk_factors = a.risk.factors;
      evidence = a.context.evidence;
      validation_checks = a.validation.checks;
      migration_summary = migration;
      rollback_summary = rollback;
    })
    else err invalid_decision
decision_with plan entry _ _ = err missing_artifact

unfoldable pub decision_of :
    Plan → PublicationLedgerEntry → Result PublicationError DecisionWriteback
unfolding starts_with
decision_of plan entry =
    let files = plan.analysis.artifacts.files in
    decision_with plan entry
      (content_of (λ path. starts_with (codes path) (codes "migrations/")) files)
      (content_of (λ path. path =s= "ROLLBACK.md") files)

-- on with the next receipt, unless the save raised
abbrev pub persist_next :
    (PublicationLedgerEntry → World → (PublicationLedgerEntry × Bool) × World)
    → PublicationLedgerEntry
    → Result PublicationError PublicationLedgerEntry
    → World
    → (PublicationLedgerEntry × Bool) × World
persist_next next entry (ok saved) t = next saved t
persist_next next entry (err e) t = ((entry, false), t)

-- the saves that `persist_writeback` makes while the port runs: the last entry saved, and whether none
-- of them raised
unfoldable pub persist_writeback :
    Service
    → List DataHubReceipt
    → PublicationLedgerEntry
    → World
    → (PublicationLedgerEntry × Bool) × World
persist_writeback p [] entry w = ((entry, true), w)
persist_writeback p (progress ∷ rest) entry w =
    let (r, t) = save p (record entry { writeback = some progress }) w in
    persist_next (persist_writeback p rest) entry r t

-- how the port ends; an exception that a save raised goes through it
abbrev pub ending_of : Bool → WritebackEnding → WritebackEnding
ending_of true ending = ending
ending_of false ending = other_error

-- after the call of `writeback`
unfoldable pub after_writeback :
    Service → Plan → PublicationLedgerEntry → String → WritebackEnding → Step PublicationReceipt
unfolding fail finish
after_writeback p plan entry patch (written writeback) = do
  saved ← save p (record entry { writeback = some writeback })
  finish p plan saved patch
after_writeback p plan entry patch authorization_error =
    fail p plan entry patch "DATAHUB_AUTHORIZATION_FAILED"
      "DataHub rejected the writeback credential." false
after_writeback p plan entry patch transport_error =
    fail p plan entry patch "DATAHUB_WRITEBACK_FAILED" "DataHub writeback did not complete." true
after_writeback p plan entry patch load_error =
    fail p plan entry patch "DATAHUB_WRITEBACK_REJECTED"
      "DataHub returned an invalid writeback acknowledgement." false
after_writeback p plan entry patch other_error =
    fail p plan entry patch "DATAHUB_WRITEBACK_FAILED" "DataHub writeback did not complete." true

-- the call of `writeback`
unfoldable pub write_back :
    Service → Plan → PublicationLedgerEntry → String → DecisionWriteback → Step PublicationReceipt
unfolding persist_writeback after_writeback
write_back p plan entry patch decision w =
    let call = p.writeback decision entry.writeback in
    let ((last, kept), t) =
      persist_writeback p call.reported entry (note (writeback_call entry.idempotency_key) w) in
    after_writeback p plan last patch (ending_of kept call.ending) t

-- the second half of `_approve_live`
unfoldable pub datahub_stage :
    Service → Plan → PublicationLedgerEntry → String → Step PublicationReceipt
unfolding fail finish decision_of write_back
datahub_stage p plan entry patch =
    if entry.datahub_required && not (is_written entry.writeback)
    then (if datahub_writeback_enabled p.settings
        then (lift (decision_of plan entry) >>= write_back p plan entry patch)
        else fail p plan entry patch "DATAHUB_NOT_CONFIGURED" "DataHub writeback is unavailable."
            false)
    else finish p plan entry patch
