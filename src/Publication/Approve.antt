-- ===== src/Publication/Approve.antt =====
-- `approve` from its first write on: a preview, or a receipt used again. Live has the rest.
use changesafe.Prelude.{Bool, true, false, Option, none, some, [], ◌∷◌, String, if◌then◌else◌}
use changesafe.Exec.{pure, lift, ◌>>=◌, ◌>>◌}
use changesafe.Domain.Context.{ContextMode, live, snapshot}
use changesafe.Domain.Publication.{PublicationMode, PublicationReceipt, PublicationLedgerEntry}
use changesafe.Store.States.{RunState, preparing_preview, publishing, completed, is_completed}
use changesafe.Store.Tables.{RunRow}
use changesafe.Store.Runs.{plain}
use changesafe.Publication.Intent.{is_preview_intent}
use changesafe.Publication.Patch.{build_unified_patch}
use changesafe.Publication.Ports.{Service, unsafe_path}
use changesafe.Publication.Review.{Plan, review, or_raise}
use changesafe.Publication.Ends.{Step, save, move, move_unless, published, is_publication_failed}
use changesafe.Publication.Live.{approve_live}

-- `run.publication`, if `run.state is RunState.COMPLETED`
abbrev pub finished_receipt : RunRow → Option PublicationReceipt
finished_receipt run = if is_completed run.state then run.publication else none

abbrev pub state_of_mode : PublicationMode → RunState
state_of_mode PublicationMode.preview = preparing_preview
state_of_mode PublicationMode.live = publishing

abbrev pub is_under_way : RunState → Bool
is_under_way preparing_preview = true
is_under_way publishing = true
is_under_way _ = false

abbrev pub is_preparing : RunState → Bool
is_preparing preparing_preview = true
is_preparing _ = false

abbrev pub marked_reused : PublicationReceipt → PublicationReceipt
marked_reused r = record r { writeback = record (r.writeback) { idempotent_reuse = true } }

-- `_reuse_completed_receipt`, of a run that is not finished
unfoldable pub reuse_receipt : Service → RunRow → PublicationReceipt → Step PublicationReceipt
reuse_receipt p run receipt = do
  move_unless (is_under_way run.state) p run.run_id (state_of_mode receipt.mode)
      (plain "Reusing completed publication receipt")
  move p run.run_id completed (published "Publication receipt reused" (marked_reused receipt))
  pure (marked_reused receipt)

abbrev pub or_finished :
    Option PublicationReceipt → Step PublicationReceipt → Step PublicationReceipt
or_finished (some receipt) m = pure receipt
or_finished none m = m

unfoldable pub reuse_completed_receipt :
    Service → RunRow → PublicationReceipt → Step PublicationReceipt
unfolding reuse_receipt
reuse_completed_receipt p run receipt =
    or_finished (finished_receipt run) (reuse_receipt p run receipt)

abbrev preview_label : ContextMode → String
preview_label snapshot = "NOT WRITTEN — SNAPSHOT MODE"
preview_label live = "NOT WRITTEN — PUBLICATION DISABLED"

-- the receipt of a preview
unfoldable pub preview_receipt : Plan → PublicationLedgerEntry → String → PublicationReceipt
preview_receipt plan entry patch = record {
  mode = PublicationMode.preview;
  idempotency_key = entry.idempotency_key;
  artifact_hash = entry.artifact_hash;
  branch = none;
  pull_request_url = none;
  patch = some patch;
  writeback = record {
    mode = PublicationMode.preview;
    label = preview_label plan.analysis.context.provenance.mode;
    document_urn = none;
    updated_urns = plan.run.request.asset_urn ∷ [];
    mutations = [];
    idempotent_reuse = false;
  };
}

-- `_approve_preview`, of a run that is not finished
unfoldable pub prepare_preview :
    Service → Plan → PublicationLedgerEntry → String → Step PublicationReceipt
unfolding preview_receipt
prepare_preview p plan entry patch =
    let run = plan.run in
    let receipt = preview_receipt plan entry patch in
    do
      move_unless (is_preparing run.state) p run.run_id preparing_preview
          (record (plain "Preparing credential-free publication preview") {
            clear_error = is_publication_failed run.state;
          })
      save p (record entry {
        writeback = some receipt.writeback;
        receipt = some receipt;
        completed = true;
      })
      move p run.run_id completed (published "Publication preview ready" receipt)
      pure receipt

unfoldable pub approve_preview :
    Service → Plan → PublicationLedgerEntry → String → Step PublicationReceipt
unfolding prepare_preview
approve_preview p plan entry patch =
    or_finished (finished_receipt plan.run) (prepare_preview p plan entry patch)

-- from the call of `save_publication` on
unfoldable pub publish_bound : Service → Plan → Step PublicationReceipt
unfolding build_unified_patch approve_preview approve_live
publish_bound p plan = do
  entry ← save p plan.entry
  patch ← lift (or_raise unsafe_path (build_unified_patch plan.analysis.artifacts))
  if is_preview_intent entry.publication_mode
      then approve_preview p plan entry patch
      else approve_live p plan entry patch

abbrev pub reuse_or_publish : Service → Plan → Option PublicationReceipt → Step PublicationReceipt
reuse_or_publish p plan (some receipt) = reuse_completed_receipt p plan.run receipt
reuse_or_publish p plan none = publish_bound p plan

unfoldable pub approve : Service → String → Option String → Step PublicationReceipt
unfolding review reuse_completed_receipt publish_bound
approve p id token w =
    (lift (review p id token w.store) >>= λ plan. reuse_or_publish p plan plan.reused) w
