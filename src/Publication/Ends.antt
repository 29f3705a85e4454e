-- ===== src/Publication/Ends.antt =====
-- The two ends of `_approve_live`, `_fail` and the receipt of a success, and the calls of the store.
use changesafe.Prelude.{Bool, true, false, Option, none, some, [], ◌∷◌, String}
use changesafe.Exec.{Exec, pure, raise, ◌>>◌}
use changesafe.Domain.Publication.{
  PublicationMode, DataHubReceipt, PublicationReceipt, PublicationLedgerEntry,
}
use changesafe.Store.States.{RunState, publishing, completed, publication_failed}
use changesafe.Store.Tables.{RunRow}
use changesafe.Store.Runs.{Update, plain, transition}
use changesafe.Store.Ledger.{save_publication}
use changesafe.Publication.Ports.{Service, World, PublicationError, publication_failure, on_store}
use changesafe.Publication.Review.{Plan}

-- an action of the service
abbrev pub Step : Type 0 → Type 0
Step A = Exec World PublicationError A

-- the calls of the store that an approval makes
abbrev pub save : Service → PublicationLedgerEntry → Step PublicationLedgerEntry
save p entry = on_store (save_publication entry (p.saved_at entry))

abbrev pub move : Service → String → RunState → Update → Step RunRow
move p id state u = on_store (transition id state u (p.moment state))

abbrev pub move_unless : Bool → Service → String → RunState → Update → Step (Unit {0})
move_unless true p id state u = pure tt
move_unless false p id state u = move p id state u >> pure tt

-- a transition with a receipt
abbrev pub published : String → PublicationReceipt → Update
published message receipt = record (plain message) { publication = some receipt }

abbrev pub is_publishing : RunState → Bool
is_publishing publishing = true
is_publishing _ = false

abbrev pub is_publication_failed : RunState → Bool
is_publication_failed publication_failed = true
is_publication_failed _ = false

abbrev pub or_receipt : Option DataHubReceipt → DataHubReceipt → DataHubReceipt
or_receipt none d = d
or_receipt (some w) d = w

abbrev unwritten : String → String → DataHubReceipt
unwritten label asset_urn = record {
  mode = PublicationMode.preview;
  label = label;
  document_urn = none;
  updated_urns = asset_urn ∷ [];
  mutations = [];
  idempotent_reuse = false;
}

-- the receipt of a live publication, whose writeback is that of the entry if it has one
unfoldable pub live_receipt : Plan → PublicationLedgerEntry → String → String → PublicationReceipt
live_receipt plan entry patch label = record {
  mode = PublicationMode.live;
  idempotency_key = entry.idempotency_key;
  artifact_hash = entry.artifact_hash;
  branch = entry.branch;
  pull_request_url = entry.pull_request_url;
  patch = some patch;
  writeback = or_receipt entry.writeback (unwritten label plan.run.request.asset_urn);
}

-- `_fail`
unfoldable pub fail :
    Service
    → Plan
    → PublicationLedgerEntry
    → String
    → String
    → String
    → Bool
    → Step PublicationReceipt
unfolding live_receipt
fail p plan entry patch code message retryable =
    let partial = live_receipt plan entry patch "WRITEBACK PENDING — RETRY REQUIRED" in
    do
      save p (record entry { receipt = some partial })
      move p plan.run.run_id publication_failed
          (record (published "Publication requires retry" partial) {
            error = some (record { code = code; message = message; retryable = retryable });
          })
      raise (publication_failure code message retryable)

-- from the receipt on
unfoldable pub finish : Service → Plan → PublicationLedgerEntry → String → Step PublicationReceipt
unfolding live_receipt
finish p plan entry patch =
    let receipt = live_receipt plan entry patch "NOT WRITTEN — WRITEBACK DISABLED" in
    do
      save p (record entry {
        writeback = some receipt.writeback;
        receipt = some receipt;
        completed = true;
      })
      move p plan.run.run_id completed (published "Publication completed" receipt)
      pure receipt
