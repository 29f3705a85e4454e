-- ===== src/Publication/Ready.antt =====
-- Rules for an approval whose run is in a known state and whose entry may be saved.
use changesafe.Prelude.{
  ◌≡◌, refl, sym, ap, ◌∙◌, subst, ℕ, true, false, Option, none, some, String, =s=_refl, Result, ok,
  arith,
}
use changesafe.Exec.{continue, ◌>>=◌}
use changesafe.Domain.Publication.{PublicationLedgerEntry}
use changesafe.Store.States.{RunState, allowed}
use changesafe.Store.Tables.{RunRow, LedgerRow, RunStore, StoreError, find_run}
use changesafe.Store.Runs.{Update, updated_run, advance}
use changesafe.Store.Ledger.{
  find_publication, get_publication, save_publication, is_bound_elsewhere, ledger_row,
}
use changesafe.Store.Binding.{merged, saved, find-saved}
use changesafe.Store.Advance.{find_run-advance}
use changesafe.Store.Behaviour.{transition-ok}
use changesafe.Store.Scrub.{run_from_row}
use changesafe.Orchestrator.Rules.{At}
use changesafe.Publication.Ports.{Service, World, PublicationError, of_store}
use changesafe.Publication.Ends.{Step, save, move}
use changesafe.Publication.Rules.{stamped}
use changesafe.Publication.Bound.{IsFree}

abbrev pub Ready : PublicationLedgerEntry → String → RunState → World → Type 0
Ready entry id state w = At id state w.store × IsFree entry w.store

merged-free :
    (row : LedgerRow) (o : Option LedgerRow)
    → is_bound_elsewhere o row.artifact_hash ≡ false
    → is_bound_elsewhere (some (merged row o)) row.artifact_hash ≡ false
merged-free row none h = ground (arith, =s=_refl row.artifact_hash)
merged-free row (some r) h = h

found-saved :
    (entry : PublicationLedgerEntry) (now : ℕ) (s : RunStore)
    → find_publication (saved entry now s) entry.idempotency_key
      ≡ some (
          merged
            (ledger_row (record entry { updated_at = now }))
            (find_publication s entry.idempotency_key))
found-saved entry now s =
    ground (arith, find-saved entry now s entry.idempotency_key, =s=_refl entry.idempotency_key)

saved-IsFree :
    (entry : PublicationLedgerEntry) (now : ℕ) (s : RunStore)
    → IsFree entry s
    → IsFree entry (saved entry now s)
saved-IsFree entry now s h =
    subst (λ o. is_bound_elsewhere o entry.artifact_hash ≡ false) (sym (found-saved entry now s))
      (merged-free (ledger_row (record entry { updated_at = now }))
        (find_publication s entry.idempotency_key) h)

merged-entry : (row : LedgerRow) (o : Option LedgerRow) → (merged row o).entry ≡ row.entry
merged-entry row none = refl
merged-entry row (some r) = refl

get-saved :
    (entry : PublicationLedgerEntry) (now : ℕ) (s : RunStore)
    → get_publication entry.idempotency_key (saved entry now s)
      ≡ some (record entry { updated_at = now })
unfolding get_publication
get-saved entry now s =
    ap (λ (o : Option LedgerRow). elim o [ none ↦ none | some r ↦ some r.entry ])
      (found-saved entry now s)
    ∙ ap (λ e. some e)
        (merged-entry (ledger_row (record entry { updated_at = now }))
          (find_publication s entry.idempotency_key))

saved-At :
    (entry : PublicationLedgerEntry) (now : ℕ) (s : RunStore) (id : String) (state : RunState)
    → At id state s
    → At id state (saved entry now s)
unfolding saved find_run
saved-At entry now s id state at = at

advance-IsFree :
    (entry : PublicationLedgerEntry) (id : String) (state : RunState) (u : Update) (now : ℕ)
    (s : RunStore)
    → IsFree entry s
    → IsFree entry (advance id state u now s)
unfolding advance find_publication
advance-IsFree entry id state u now s h = h

get_publication-advance :
    (id : String) (state : RunState) (u : Update) (now : ℕ) (s : RunStore) (key : String)
    → get_publication key (advance id state u now s) ≡ get_publication key s
unfolding advance find_publication get_publication
get_publication-advance id state u now s key = refl

save_publication-IsFree :
    (entry : PublicationLedgerEntry) (now : ℕ) (s : RunStore)
    → IsFree entry s
    → save_publication entry now s ≡ (ok (record entry { updated_at = now }), saved entry now s)
unfolding save_publication saved
save_publication-IsFree entry now s free = ground (arith, free)

-- A save of a free entry succeeds.
pub save-ok :
    (p : Service) (entry : PublicationLedgerEntry) (w : World)
    → IsFree entry w.store
    → save p entry w
      ≡ (ok (stamped p entry), record w { store = saved entry (p.saved_at entry) w.store })
save-ok p entry w free =
    ap
      (λ (x : Result StoreError PublicationLedgerEntry × RunStore).
        (of_store x.0, record w { store = x.1 }))
      (save_publication-IsFree entry (p.saved_at entry) w.store free)

pub save-next :
    (p : Service) (entry : PublicationLedgerEntry) (id : String) (state : RunState) (w : World)
    → Ready entry id state w
    → (t : World) × (save p entry w ≡ (ok (stamped p entry), t))
      × Ready (stamped p entry) id state t
save-next p entry id state w (at, free) =
    let now = p.saved_at entry in
    (
      record w { store = saved entry now w.store },
      save-ok p entry w free,
      (saved-At entry now w.store id state at, saved-IsFree entry now w.store free),
    )

module _ {B : Type 0} (P : Result PublicationError B × World → Type 0) (p : Service)
    (id : String) where
  at_ok :
      {A : Type 0} (m : Step A) (f : A → Step B) (w t : World) (a : A)
      → m w ≡ (ok a, t)
      → P (f a t)
      → P ((m >>= f) w)
  at_ok m f w t a h next =
      subst (λ (x : Result PublicationError _ × World). P (continue x.0 f x.1)) (sym h) next

  -- A chain that starts with a save.
  pub save-Ready :
      (entry : PublicationLedgerEntry) (state : RunState) (f : PublicationLedgerEntry → Step B)
      (w : World)
      → Ready entry id state w
      → ((t : World)
          → Ready entry id state t
          → get_publication entry.idempotency_key t.store ≡ some (stamped p entry)
          → P (f (stamped p entry) t))
      → P ((save p entry >>= f) w)
  save-Ready entry state f w (at, free) next =
      let now = p.saved_at entry in
      at_ok (save p entry) f w (record w { store = saved entry now w.store }) (stamped p entry)
        (save-ok p entry w free)
        (next _ (saved-At entry now w.store id state at, saved-IsFree entry now w.store free)
          (get-saved entry now w.store))

  -- A chain that starts with an allowed transition.
  pub move-Ready :
      (entry : PublicationLedgerEntry) (a b : RunState) (u : Update) (f : RunRow → Step B)
      (w : World)
      → Ready entry id a w
      → allowed a b ≡ true
      → ((row : RunRow) (t : World)
          → Ready entry id b t
          → (r : RunRow) × (find_run t.store id ≡ some (updated_run b u (p.moment b) r))
          → ((key : String) → get_publication key t.store ≡ get_publication key w.store)
          → P (f row t))
      → P ((move p id b u >>= f) w)
  unfolding updated_run
  move-Ready entry a b u f w ((r, found, at), free) step next =
      let now = p.moment b in
      let there = find_run-advance id b u now w.store r found in
      at_ok (move p id b u) f w (record w { store = advance id b u now w.store })
        (run_from_row (updated_run b u now r))
        (ap (λ (x : Result StoreError RunRow × RunStore). (of_store x.0, record w { store = x.1 }))
          (transition-ok id b u now w.store r found (ap (λ s. allowed s b) at ∙ step)))
        (next _ _
          ((updated_run b u now r, there, refl), advance-IsFree entry id b u now w.store free)
          (r, there) (get_publication-advance id b u now w.store))
