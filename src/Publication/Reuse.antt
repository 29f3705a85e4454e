-- ===== src/Publication/Reuse.antt =====
-- An approval of a key whose entry is completed.
use changesafe.Prelude.{
  ◌≡◌, refl, sym, ◌∙◌, subst, Bool, true, false, Option, some, List, String, Result, ok, arith,
}
use changesafe.Exec.{final, pure, continue, ◌>>=◌, ◌>>◌}
use changesafe.Domain.Publication.{
  PublicationMode, live, preview, PublicationReceipt, PublicationLedgerEntry,
}
use changesafe.Store.States.{
  RunState, awaiting_approval, preparing_preview, publishing, completed, publication_failed,
  allowed, is_completed,
}
use changesafe.Store.Tables.{RunRow, find_run}
use changesafe.Store.Runs.{updated_run, plain}
use changesafe.Store.Ledger.{get_publication}
use changesafe.Store.Steps.{IsReachable}
use changesafe.Orchestrator.Rules.{At}
use changesafe.Publication.Ports.{Service, World, ExternalCall, PublicationError}
use changesafe.Publication.Review.{Plan, review, is_approvable}
use changesafe.Publication.Ends.{Step, move, move_unless, published}
use changesafe.Publication.Approve.{
  or_finished, is_under_way, state_of_mode, marked_reused, reuse_receipt, reuse_completed_receipt,
  reuse_or_publish, approve,
}
use changesafe.Publication.Rules.{Adds, none_added, one_added}
use changesafe.Publication.Ready.{Ready, move-Ready}
use changesafe.Publication.Granted.{review-IsGranted}
use changesafe.Publication.Permitted.{reuse-Kept}
use changesafe.Publication.Whole.{got-At, unfinished}

-- the receipt is returned, the run is completed with it, and the ledger is as it was
abbrev pub IsReused :
    String
    → PublicationReceipt
    → World
    → Result PublicationError PublicationReceipt × World
    → Type 0
IsReused id receipt w (r, t) =
    (r ≡ ok receipt)
    × ((row : RunRow) × (find_run t.store id ≡ some row)
        × (row.state ≡ completed)
        × (row.publication ≡ some receipt))
    × ((key : String) → get_publication key t.store ≡ get_publication key w.store)

under_way-allowed : (state : RunState) → is_under_way state ≡ true → allowed state completed ≡ true
unfolding allowed
under_way-allowed preparing_preview h = refl
under_way-allowed publishing h = refl
under_way-allowed _ h = ground (arith, h)

mode-allowed : (mode : PublicationMode) → allowed (state_of_mode mode) completed ≡ true
unfolding allowed
mode-allowed live = refl
mode-allowed preview = refl

start-allowed :
    (state : RunState) (mode : PublicationMode)
    → is_approvable state ≡ true
    → is_completed state ≡ false
    → is_under_way state ≡ false
    → allowed state (state_of_mode mode) ≡ true
unfolding allowed
start-allowed awaiting_approval live a c u = refl
start-allowed awaiting_approval preview a c u = refl
start-allowed publication_failed live a c u = refl
start-allowed publication_failed preview a c u = refl
start-allowed _ mode a c u = ground (arith, a, c, u)

module _ (p : Service) (run : RunRow) (entry : PublicationLedgerEntry)
    (receipt : PublicationReceipt) where
  abbrev last_step : Step PublicationReceipt
  last_step =
      move p run.run_id completed (published "Publication receipt reused" (marked_reused receipt))
      >> pure (marked_reused receipt)

  last-IsReused :
      (state : RunState) (w t : World)
      → Ready entry run.run_id state t
      → allowed state completed ≡ true
      → ((key : String) → get_publication key t.store ≡ get_publication key w.store)
      → IsReused run.run_id (marked_reused receipt) w (last_step t)
  unfolding updated_run
  last-IsReused state w t ready step kept =
      move-Ready (IsReused run.run_id (marked_reused receipt) w) p run.run_id entry state completed
        _ _ t ready step
        (λ row u ready1 (r, there) same. (refl, (_, there, refl, refl), λ key. same key ∙ kept key))

  steps-IsReused :
      (stays : Bool) (w : World)
      → Ready entry run.run_id run.state w
      → (stays ≡ true → allowed run.state completed ≡ true)
      → (stays ≡ false → allowed run.state (state_of_mode receipt.mode) ≡ true)
      → IsReused run.run_id (marked_reused receipt) w (
          (move_unless stays p run.run_id
                (state_of_mode receipt.mode)
                (plain "Reusing completed publication receipt")
              >>= λ u. last_step)
            w)
  steps-IsReused true w ready there step =
      last-IsReused run.state w w ready (there refl) (λ key. refl)
  steps-IsReused false w ready there step =
      move-Ready
        (λ x.
          IsReused run.run_id (marked_reused receipt) w
            (continue x.0 (λ (u : Unit {0}). last_step) x.1))
        p run.run_id entry run.state (state_of_mode receipt.mode) _ (λ row. pure tt) w ready
        (step refl)
        (λ row t ready1 found same.
          last-IsReused (state_of_mode receipt.mode) w t ready1 (mode-allowed receipt.mode) same)

  reuse-IsReused :
      (w : World)
      → is_approvable run.state ≡ true
      → is_completed run.state ≡ false
      → Ready entry run.run_id run.state w
      → IsReused run.run_id (marked_reused receipt) w (reuse_completed_receipt p run receipt w)
  unfolding reuse_completed_receipt reuse_receipt
  reuse-IsReused w approvable open_run ready =
      subst
        (λ o.
          IsReused run.run_id (marked_reused receipt) w
            (or_finished o (reuse_receipt p run receipt) w))
        (sym (unfinished run open_run))
        (steps-IsReused (is_under_way run.state) w ready (under_way-allowed run.state)
          (start-allowed run.state receipt.mode approvable open_run))

nothing-added : (calls later : List ExternalCall) → Adds (λ call. ⊥) calls later → later ≡ calls
nothing-added calls _ none_added = refl
nothing-added calls _ (one_added impossible more) = absurd impossible

-- An approval that is not refused, of a run that is not completed, whose key has a completed receipt in
-- the ledger: it returns that receipt, marked as used again, completes the run with it, leaves the
-- ledger, and calls neither GitHub nor DataHub.
pub approve_reuses :
    (p : Service) (id : String) (token : Option String) (w : World) (plan : Plan)
    (receipt : PublicationReceipt)
    → IsReachable w.store
    → review p id token w.store ≡ ok plan
    → is_completed plan.run.state ≡ false
    → plan.reused ≡ some receipt
    → IsReused id (marked_reused receipt) w (approve p id token w)
      × ((final (approve p id token w)).external_calls ≡ w.external_calls)
unfolding approve
approve_reuses p id token w plan receipt reach accepted open_run again =
    let P = λ (x : Result PublicationError PublicationReceipt × World).
      IsReused id (marked_reused receipt) w x × ((final x).external_calls ≡ w.external_calls) in
    let g = review-IsGranted p id token w.store plan accepted in
    let (same, at) = got-At id w.store plan.run g.found in
    subst (λ r. P (continue r (λ q. reuse_or_publish p q q.reused) w)) (sym accepted)
      (subst (λ o. P (reuse_or_publish p plan o w)) (sym again)
        (
          subst
              (λ x.
                IsReused x (marked_reused receipt) w (reuse_completed_receipt p plan.run receipt w))
              same
              (reuse-IsReused p plan.run plan.entry receipt w g.approvable open_run
                (subst (λ x. At x plan.run.state w.store) (sym same) at, g.free reach)),
          nothing-added w.external_calls _
              (reuse-Kept (λ call. ⊥) p plan.run receipt w.external_calls w none_added),
        ))
