-- ===== src/Publication/Settled.antt =====
-- How a live publication ends.
use changesafe.Prelude.{
  ◌≡◌, refl, sym, ◌∙◌, subst, Bool, true, false, not, ◌&&◌, Option, ◌⊎◌, inl, inr, none, some, List,
  [], ◌∷◌, String, Result, ok, err, arith, if◌then◌else◌,
}
use changesafe.Exec.{lift, ◌>>=◌}
use changesafe.Domain.Analysis.{PublicError}
use changesafe.Domain.Publication.{DataHubReceipt, PublicationReceipt, PublicationLedgerEntry}
use changesafe.Store.States.{RunState, publishing, completed, publication_failed, allowed}
use changesafe.Store.Tables.{RunRow, find_run}
use changesafe.Store.Runs.{updated_run}
use changesafe.Store.Ledger.{get_publication}
use changesafe.Config.Settings.{datahub_writeback_enabled}
use changesafe.Orchestrator.Rules.{At}
use changesafe.Publication.Intent.{is_written}
use changesafe.Publication.Ports.{
  Service, World, PublicationError, publication_failure, unsafe_path, missing_artifact,
  invalid_decision, note, writeback_call, DecisionWriteback, WritebackEnding, written,
  authorization_error, transport_error, load_error, other_error,
}
use changesafe.Publication.Review.{Plan}
use changesafe.Publication.Ends.{Step, or_receipt, live_receipt, fail, finish}
use changesafe.Publication.Writeback.{
  decision_of, decision_with, persist_next, persist_writeback, ending_of, after_writeback,
  write_back, datahub_stage,
}
use changesafe.Publication.Checkpoints.{
  Checkpoints, checkpoints_of, after_reports, decided, datahub_reached,
}
use changesafe.Publication.Rules.{stamped}
use changesafe.Publication.Ready.{Ready, save-Ready, move-Ready, save-next}

-- the run is completed with the receipt, and so is the entry of the ledger
abbrev pub IsPublished : String → String → PublicationReceipt → World → Type 0
IsPublished id key receipt w =
    ((row : RunRow) × (find_run w.store id ≡ some row)
      × (row.state ≡ completed)
      × (row.publication ≡ some receipt)
      × (row.error ≡ none))
    × ((entry : PublicationLedgerEntry) × (get_publication key w.store ≡ some entry)
        × (entry.completed ≡ true)
        × (entry.receipt ≡ some receipt))

-- a receipt shows a writeback that there is
abbrev Shows : Option DataHubReceipt → DataHubReceipt → Type 0
Shows none d = Unit
Shows (some r) d = d ≡ r

-- the run has failed with the error, and the ledger and the partial receipt have the checkpoints
abbrev pub IsRetryable : String → String → Checkpoints → PublicError → World → Type 0
IsRetryable id key c e w =
    (partial : PublicationReceipt) × ((row : RunRow) × (find_run w.store id ≡ some row)
      × (row.state ≡ publication_failed)
      × (row.publication ≡ some partial)
      × (row.error ≡ some e))
    × ((entry : PublicationLedgerEntry) × (get_publication key w.store ≡ some entry)
        × (entry.receipt ≡ some partial)
        × (checkpoints_of entry ≡ c))
    × (partial.branch ≡ c.branch)
    × (partial.pull_request_url ≡ c.pull_request_url)
    × Shows c.writeback partial.writeback

-- where an approval that is not refused ends: published, failed with the checkpoints, or, with artifacts that
-- no patch or decision can be made from, as it stood
abbrev pub IsSettled :
    String
    → String
    → RunState
    → Checkpoints
    → Result PublicationError PublicationReceipt × World
    → Type 0
IsSettled id key start c (ok receipt, w) = IsPublished id key receipt w
IsSettled id key start c (err (publication_failure code message retryable), w) =
    IsRetryable id key c (record { code = code; message = message; retryable = retryable }) w
IsSettled id key start c (err unsafe_path, w) = At id start w.store
IsSettled id key start c (err missing_artifact, w) = At id publishing w.store
IsSettled id key start c (err invalid_decision, w) = At id publishing w.store
IsSettled id key start c (err _, w) = ⊥

or_receipt-Shows : (o : Option DataHubReceipt) (d : DataHubReceipt) → Shows o (or_receipt o d)
or_receipt-Shows none d = tt
or_receipt-Shows (some r) d = refl

err-injective : {E A : Type 0} {a b : E} → ◌≡◌ {A = Result E A} (err a) (err b) → a ≡ b
err-injective h = cc h

module _ (p : Service) (plan : Plan) (patch : String) (start : RunState) where
  abbrev Ends : String → Checkpoints → Step PublicationReceipt → World → Type 0
  Ends key c m w = IsSettled plan.run.run_id key start c (m w)

  pub if-Settled :
      (key : String) (b : Bool) (c d : Checkpoints) (m n : Step PublicationReceipt) (w : World)
      → Ends key c m w
      → Ends key d n w
      → Ends key (if b then c else d) (if b then m else n) w
  if-Settled key true c d m n w holds other = holds
  if-Settled key false c d m n w holds other = other

  pub fail-Settled :
      (entry : PublicationLedgerEntry) (code message : String) (retryable : Bool) (w : World)
      → Ready entry plan.run.run_id publishing w
      → Ends entry.idempotency_key
          (checkpoints_of entry)
          (fail p plan entry patch code message retryable)
          w
  unfolding fail allowed updated_run live_receipt
  fail-Settled entry code message retryable w ready =
      let id = plan.run.run_id in
      let key = entry.idempotency_key in
      let c = checkpoints_of entry in
      let partial = live_receipt plan entry patch "WRITEBACK PENDING — RETRY REQUIRED" in
      let next = record entry { receipt = some partial } in
      save-Ready (IsSettled id key start c) p id next publishing _ w ready (λ t ready1 got.
        move-Ready (IsSettled id key start c) p id next publishing publication_failed _ _ t ready1
          refl
          (λ row u ready2 (r, there) same. (
            partial,
            (_, there, refl, refl, refl),
            (stamped p next, same key ∙ got, refl, refl),
            refl,
            refl,
            or_receipt-Shows entry.writeback _,
          )))

  pub finish-Settled :
      (c : Checkpoints) (entry : PublicationLedgerEntry) (w : World)
      → Ready entry plan.run.run_id publishing w
      → Ends entry.idempotency_key c (finish p plan entry patch) w
  unfolding finish allowed updated_run live_receipt
  finish-Settled c entry w ready =
      let id = plan.run.run_id in
      let key = entry.idempotency_key in
      let receipt = live_receipt plan entry patch "NOT WRITTEN — WRITEBACK DISABLED" in
      let next = record entry {
        writeback = some receipt.writeback;
        receipt = some receipt;
        completed = true;
      } in
      save-Ready (IsSettled id key start c) p id next publishing _ w ready (λ t ready1 got.
        move-Ready (IsSettled id key start c) p id next publishing completed _ _ t ready1 refl
          (λ row u ready2 (r, there) same.
            ((_, there, refl, refl, refl), (stamped p next, same key ∙ got, refl, refl))))

  -- the saves of the writeback keep the key, and never raise
  persist-Ready :
      (reported : List DataHubReceipt) (entry : PublicationLedgerEntry) (w : World)
      → Ready entry plan.run.run_id publishing w
      → let ((last, kept), t) = persist_writeback p reported entry w in
        (last.idempotency_key ≡ entry.idempotency_key)
        × Ready last plan.run.run_id publishing t
        × (kept ≡ true)
        × (checkpoints_of last ≡ after_reports entry reported)
  unfolding persist_writeback
  persist-Ready [] entry w ready = (refl, ready, refl, refl)
  persist-Ready (progress ∷ rest) entry w (at, free) =
      let next = record entry { writeback = some progress } in
      let (t, h, ready) = save-next p next plan.run.run_id publishing w (at, free) in
      subst
        (λ (x : Result PublicationError PublicationLedgerEntry × World).
          let ((last, kept), t) = persist_next (persist_writeback p rest) entry x.0 x.1 in
          (last.idempotency_key ≡ entry.idempotency_key)
          × Ready last plan.run.run_id publishing t
          × (kept ≡ true)
          × (checkpoints_of last ≡ after_reports (stamped p next) rest))
        (sym h) (persist-Ready rest (stamped p next) t ready)

  ending-Settled :
      (entry : PublicationLedgerEntry) (ending : WritebackEnding) (w : World)
      → Ready entry plan.run.run_id publishing w
      → Ends entry.idempotency_key
          (checkpoints_of entry)
          (after_writeback p plan entry patch ending)
          w
  unfolding after_writeback
  ending-Settled entry (written writeback) w ready =
      let next = record entry { writeback = some writeback } in
      let c = checkpoints_of entry in
      save-Ready (IsSettled plan.run.run_id entry.idempotency_key start c) p plan.run.run_id next
        publishing _ w ready
        (λ t ready1 got. finish-Settled (checkpoints_of entry) (stamped p next) t ready1)
  ending-Settled entry authorization_error w ready = fail-Settled entry _ _ false w ready
  ending-Settled entry transport_error w ready = fail-Settled entry _ _ true w ready
  ending-Settled entry load_error w ready = fail-Settled entry _ _ false w ready
  ending-Settled entry other_error w ready = fail-Settled entry _ _ true w ready

  after_writeback-Settled :
      (key : String) (c : Checkpoints) (entry : PublicationLedgerEntry) (ending : WritebackEnding)
      (w : World)
      → entry.idempotency_key ≡ key
      → checkpoints_of entry ≡ c
      → Ready entry plan.run.run_id publishing w
      → Ends key c (after_writeback p plan entry patch ending) w
  unfolding after_writeback
  after_writeback-Settled key c entry ending w same kept ready =
      subst (λ k. Ends k c (after_writeback p plan entry patch ending) w) same
        (subst (λ d. Ends entry.idempotency_key d (after_writeback p plan entry patch ending) w)
          kept (ending-Settled entry ending w ready))

  write_back-Settled :
      (entry : PublicationLedgerEntry) (decision : DecisionWriteback) (w : World)
      → Ready entry plan.run.run_id publishing w
      → Ends entry.idempotency_key
          (decided p entry (ok decision))
          (write_back p plan entry patch decision)
          w
  unfolding write_back
  write_back-Settled entry decision w ready =
      let call = p.writeback decision entry.writeback in
      let noted = note (writeback_call entry.idempotency_key) w in
      let (same, ready1, kept, reports) = persist-Ready call.reported entry noted ready in
      after_writeback-Settled entry.idempotency_key (decided p entry (ok decision)) _
        (ending_of (persist_writeback p call.reported entry noted).0.1 call.ending) _ same reports
        ready1

  decision_with-Input :
      (entry : PublicationLedgerEntry) (migration rollback : Option String) (x : PublicationError)
      → decision_with plan entry migration rollback ≡ err x
      → (x ≡ missing_artifact) ⊎ (x ≡ invalid_decision)
  decision_with-Input entry none rollback x h = inl (sym (err-injective h))
  decision_with-Input entry (some m) none x h = inl (sym (err-injective h))
  decision_with-Input entry (some m) (some r) x h = ground (arith, h)

  decide-Settled :
      (entry : PublicationLedgerEntry) (r : Result PublicationError DecisionWriteback) (w : World)
      → decision_of plan entry ≡ r
      → Ready entry plan.run.run_id publishing w
      → Ends entry.idempotency_key (decided p entry r) (lift r >>= write_back p plan entry patch) w
  unfolding decision_of
  decide-Settled entry (ok decision) w e ready = write_back-Settled entry decision w ready
  decide-Settled entry (err x) w e (at, free) = elim (decision_with-Input entry _ _ x e) [
    | inl h ↦
        subst
          (λ y.
            IsSettled plan.run.run_id entry.idempotency_key start (checkpoints_of entry) (err y, w))
          (sym h) at
    | inr h ↦
        subst
          (λ y.
            IsSettled plan.run.run_id entry.idempotency_key start (checkpoints_of entry) (err y, w))
          (sym h) at
  ]

  pub datahub-Settled :
      (entry : PublicationLedgerEntry) (w : World)
      → Ready entry plan.run.run_id publishing w
      → Ends entry.idempotency_key
          (datahub_reached p plan entry)
          (datahub_stage p plan entry patch)
          w
  unfolding datahub_stage
  datahub-Settled entry w ready =
      if-Settled entry.idempotency_key (entry.datahub_required && not (is_written entry.writeback))
        _ _ _ _ w
        (if-Settled entry.idempotency_key (datahub_writeback_enabled p.settings) _ _ _ _ w
          (decide-Settled entry (decision_of plan entry) w refl ready)
          (fail-Settled entry _ _ false w ready))
        (finish-Settled (checkpoints_of entry) entry w ready)
