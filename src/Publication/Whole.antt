-- ===== src/Publication/Whole.antt =====
-- How an approval that is not refused ends.
use changesafe.Prelude.{
  some-injective, none-ne-some, ◌≡◌, refl, sym, ap, ◌∙◌, subst, ◌⊎◌, inl, inr, Bool, true, false,
  Option, none, some, List, [], ◌∷◌, String, =s=_iff, find?, Option-cases, Result, ok,
  if◌then◌else◌, arith,
}
use changesafe.Exec.{pure, lift, continue, ◌>>=◌}
use changesafe.Domain.Publication.{PublicationMode, PublicationLedgerEntry}
use changesafe.Store.States.{
  RunState, awaiting_approval, preparing_preview, publishing, completed, publication_failed,
  allowed, is_completed,
}
use changesafe.Store.Tables.{RunRow, RunStore, has_id, find_run}
use changesafe.Store.Scrub.{run_from_row}
use changesafe.Store.Runs.{Update, updated_run, get}
use changesafe.Store.Steps.{IsReachable}
use changesafe.Orchestrator.Rules.{At}
use changesafe.Publication.Intent.{is_live_intent, is_preview_intent, destination_mismatch}
use changesafe.Publication.Patch.{build_unified_patch}
use changesafe.Publication.Ports.{Service, World, PublicationError, unsafe_path}
use changesafe.Publication.Review.{Plan, or_raise, review, is_approvable, conflicts}
use changesafe.Publication.Ends.{Step, move_unless, is_publishing}
use changesafe.Publication.Live.{approve_live}
use changesafe.Publication.Approve.{
  finished_receipt, or_finished, is_preparing, preview_receipt, prepare_preview, approve_preview,
  publish_bound, reuse_or_publish, approve,
}
use changesafe.Publication.Checkpoints.{Checkpoints, reached}
use changesafe.Publication.Rules.{stamped}
use changesafe.Publication.Ready.{Ready, save-Ready, move-Ready}
use changesafe.Publication.Granted.{IsGranted, review-IsGranted}
use changesafe.Publication.Settled.{IsSettled, if-Settled, fail-Settled}
use changesafe.Publication.Opened.{github-Settled}

by_cases :
    {A : Type 0} (P : Result PublicationError A × World → Type 0) (b : Bool) (m n : Step A)
    (w : World)
    → (b ≡ true → P (m w))
    → (b ≡ false → P (n w))
    → P ((if b then m else n) w)
by_cases P true m n w holds other = holds refl
by_cases P false m n w holds other = other refl

-- the transition to the state, unless the run is in it
abbrev Enters : RunState → RunState → Bool → Type 0
Enters a b stays = ((stays ≡ true) × (a ≡ b)) ⊎ ((stays ≡ false) × (allowed a b ≡ true))

live-Enters :
    (state : RunState) (mode : Option PublicationMode)
    → is_approvable state ≡ true
    → is_completed state ≡ false
    → conflicts state mode ≡ false
    → is_preview_intent mode ≡ false
    → Enters state publishing (is_publishing state)
unfolding allowed
live-Enters awaiting_approval mode a c f m = inr (refl, refl)
live-Enters publication_failed mode a c f m = inr (refl, refl)
live-Enters publishing mode a c f m = inl (refl, refl)
live-Enters preparing_preview mode a c f m = ground (arith, f, m)
live-Enters completed mode a c f m = ground (arith, c)
live-Enters _ mode a c f m = ground (arith, a)

preview-Enters :
    (state : RunState) (mode : Option PublicationMode)
    → is_approvable state ≡ true
    → is_completed state ≡ false
    → conflicts state mode ≡ false
    → is_live_intent mode ≡ false
    → Enters state preparing_preview (is_preparing state)
unfolding allowed
preview-Enters awaiting_approval mode a c f m = inr (refl, refl)
preview-Enters publication_failed mode a c f m = inr (refl, refl)
preview-Enters preparing_preview mode a c f m = inl (refl, refl)
preview-Enters publishing mode a c f m = ground (arith, f, m)
preview-Enters completed mode a c f m = ground (arith, c)
preview-Enters _ mode a c f m = ground (arith, a)

unless-Ready :
    {B : Type 0} (P : Result PublicationError B × World → Type 0) (p : Service) (id : String)
    (entry : PublicationLedgerEntry) (a b : RunState) (stays : Bool) (u : Update)
    (f : Unit {0} → Step B) (w : World)
    → Ready entry id a w
    → Enters a b stays
    → ((t : World) → Ready entry id b t → P (f tt t))
    → P ((move_unless stays p id b u >>= f) w)
unless-Ready P p id entry a b true u f w ready (inl (e, same)) next =
    next w (subst (λ s. Ready entry id s w) same ready)
unless-Ready P p id entry a b true u f w ready (inr (e, step)) next = ground (arith, e)
unless-Ready P p id entry a b false u f w ready (inl (e, same)) next = ground (arith, e)
unless-Ready P p id entry a b false u f w ready (inr (e, step)) next =
    move-Ready (λ x. P (continue x.0 f x.1)) p id entry a b u (λ row. pure tt) w ready step
      (λ row t ready1 there same. next t ready1)

run_id-found :
    (id : String) (rs : List RunRow) (r : RunRow) → find? (has_id id) rs ≡ some r → r.run_id ≡ id
run_id-found id [] r h = cc h
run_id-found id (q ∷ rs) r h = ground (arith, run_id-found id rs r, =s=_iff q.run_id id)

abbrev read : Option RunRow → Option RunRow
read o = elim o [ none ↦ none | some r ↦ some (run_from_row r) ]

pub got-At :
    (id : String) (s : RunStore) (run : RunRow)
    → get id s ≡ some run
    → (run.run_id ≡ id) × At id run.state s
unfolding get find_run run_from_row
got-At id s run h = elim (Option-cases (find_run s id)) [
  | inl missing ↦ absurd (none-ne-some (sym (ap read missing) ∙ h))
  | inr (r, found) ↦
      let same = some-injective (sym (ap read found) ∙ h) in
      (
        sym (ap (λ (x : RunRow). x.run_id) same) ∙ run_id-found id s.runs r found,
        (r, found, ap (λ (x : RunRow). x.state) same),
      )
]

pub unfinished : (run : RunRow) → is_completed run.state ≡ false → finished_receipt run ≡ none
unfinished run h = ground (arith, h)

module _ (p : Service) (plan : Plan) where
  preview-Settled :
      (c : Checkpoints) (entry : PublicationLedgerEntry) (patch : String) (w : World)
      → Ready entry plan.run.run_id plan.run.state w
      → Enters plan.run.state preparing_preview (is_preparing plan.run.state)
      → IsSettled plan.run.run_id entry.idempotency_key plan.run.state c
          (prepare_preview p plan entry patch w)
  unfolding prepare_preview preview_receipt allowed updated_run
  preview-Settled c entry patch w ready enters =
      let id = plan.run.run_id in
      let key = entry.idempotency_key in
      let P = IsSettled id key plan.run.state c in
      let receipt = preview_receipt plan entry patch in
      let next = record entry {
        writeback = some receipt.writeback;
        receipt = some receipt;
        completed = true;
      } in
      unless-Ready P p id entry plan.run.state preparing_preview (is_preparing plan.run.state) _ _ w
        ready enters
        (λ t ready1. save-Ready P p id next preparing_preview _ t ready1 (λ u ready2 got.
          move-Ready P p id next preparing_preview completed _ _ u ready2 refl
            (λ row v ready3 (r, there) same.
              ((_, there, refl, refl, refl), (stamped p next, same key ∙ got, refl, refl)))))

  live-Settled :
      (entry : PublicationLedgerEntry) (patch : String) (w : World)
      → Ready entry plan.run.run_id plan.run.state w
      → Enters plan.run.state publishing (is_publishing plan.run.state)
      → IsSettled plan.run.run_id entry.idempotency_key plan.run.state
          (reached p plan entry)
          (approve_live p plan entry patch w)
  unfolding approve_live reached
  live-Settled entry patch w ready enters =
      let start = plan.run.state in
      unless-Ready (IsSettled plan.run.run_id entry.idempotency_key start (reached p plan entry)) p
        plan.run.run_id entry start publishing (is_publishing start) _ _ w ready enters
        (λ t ready1.
          if-Settled p plan patch start entry.idempotency_key
            (destination_mismatch p.settings plan.run entry) _ _ _ _ t
            (fail-Settled p plan patch start entry _ _ false t ready1)
            (github-Settled p plan patch start entry t ready1))

  prepare-Settled :
      (c : Checkpoints) (entry : PublicationLedgerEntry) (patch : String) (w : World)
      → is_completed plan.run.state ≡ false
      → Ready entry plan.run.run_id plan.run.state w
      → Enters plan.run.state preparing_preview (is_preparing plan.run.state)
      → IsSettled plan.run.run_id entry.idempotency_key plan.run.state c
          (approve_preview p plan entry patch w)
  unfolding approve_preview
  prepare-Settled c entry patch w open_run ready enters =
      subst
        (λ o.
          IsSettled plan.run.run_id entry.idempotency_key plan.run.state c
            (or_finished o (prepare_preview p plan entry patch) w))
        (sym (unfinished plan.run open_run)) (preview-Settled c entry patch w ready enters)

  patch-Settled :
      (id : String) (token : Option String) (s : RunStore) (patch : Option String)
      (entry : PublicationLedgerEntry) (w : World)
      → IsGranted p id token s plan
      → is_completed plan.run.state ≡ false
      → Ready entry plan.run.run_id plan.run.state w
      → IsSettled plan.run.run_id entry.idempotency_key plan.run.state (reached p plan entry) (
          (lift (or_raise unsafe_path patch) >>= λ text.
          if is_preview_intent plan.entry.publication_mode
          then approve_preview p plan entry text
          else approve_live p plan entry text)
            w)
  patch-Settled id token s none entry w g open_run (at, free) = at
  patch-Settled id token s (some patch) entry w g open_run ready =
      let mode = plan.entry.publication_mode in
      by_cases
        (IsSettled plan.run.run_id entry.idempotency_key plan.run.state (reached p plan entry))
        (is_preview_intent mode) _ _ w
        (λ shown. prepare-Settled (reached p plan entry) entry patch w open_run ready (
          preview-Enters plan.run.state mode g.approvable open_run g.agrees
            (ground (arith, g.intended, shown))))
        (λ meant.
          live-Settled entry patch w ready
            (live-Enters plan.run.state mode g.approvable open_run g.agrees meant))

  publish-Settled :
      (id : String) (token : Option String) (w : World)
      → IsGranted p id token w.store plan
      → is_completed plan.run.state ≡ false
      → IsReachable w.store
      → IsSettled id plan.entry.idempotency_key plan.run.state
          (reached p plan (stamped p plan.entry))
          (publish_bound p plan w)
  unfolding publish_bound
  publish-Settled id token w g open_run reach =
      let (same, at) = got-At id w.store plan.run g.found in
      let key = plan.entry.idempotency_key in
      subst
        (λ x.
          IsSettled x key plan.run.state (reached p plan (stamped p plan.entry))
            (publish_bound p plan w))
        same
        (save-Ready
          (IsSettled plan.run.run_id key plan.run.state (reached p plan (stamped p plan.entry))) p
          plan.run.run_id plan.entry plan.run.state _ w
          (subst (λ x. At x plan.run.state w.store) (sym same) at, g.free reach)
          (λ t ready got.
            patch-Settled id token w.store (build_unified_patch plan.analysis.artifacts)
              (stamped p plan.entry) t g open_run ready))

-- An approval that is not refused, of a run that is not completed and whose key has no completed
-- receipt, never fails in the store, whatever the ports answer. It ends with the run completed and its
-- receipt in the row and in the completed entry of the ledger; or, with PublicationFailure, with the run
-- in publication_failed, its error in the row, and, in the ledger and in the partial receipt, each
-- checkpoint of the entry or, where the ports have answered since, their branch, pull request and last
-- reported writeback; or, if its artifacts give no patch or no decision, by that exception, with the run as it was or publishing.
pub approve_settles :
    (p : Service) (id : String) (token : Option String) (w : World) (plan : Plan)
    → IsReachable w.store
    → review p id token w.store ≡ ok plan
    → is_completed plan.run.state ≡ false
    → plan.reused ≡ none
    → IsSettled id plan.entry.idempotency_key plan.run.state
        (reached p plan (stamped p plan.entry))
        (approve p id token w)
unfolding approve
approve_settles p id token w plan reach accepted open_run fresh =
    let P =
      IsSettled id plan.entry.idempotency_key plan.run.state
        (reached p plan (stamped p plan.entry)) in
    subst (λ r. P (continue r (λ q. reuse_or_publish p q q.reused) w)) (sym accepted)
      (subst (λ o. P (reuse_or_publish p plan o w)) (sym fresh)
        (publish-Settled p plan id token w (review-IsGranted p id token w.store plan accepted)
          open_run reach))
