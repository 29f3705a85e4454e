-- ===== src/Publication/Rules.antt =====
-- Rules for the calls to GitHub and DataHub that an approval makes.
use changesafe.Prelude.{
  err-ne-ok, ok-injective, ap, ◌∙◌, ◌≡◌, refl, if◌then◌else◌, sym, subst, Bool, true, false, List,
  ◌∷◌, inl, inr, String, Result, ok, err,
}
use changesafe.Exec.{final, pure, lift, continue, ◌>>=◌}
use changesafe.Domain.Publication.{PublicationLedgerEntry}
use changesafe.Store.Tables.{RunStore, StoreError}
use changesafe.Store.States.{RunState}
use changesafe.Store.Runs.{Update}
use changesafe.Store.Binding.{save_publication-cases}
use changesafe.Publication.Ports.{Service, World, ExternalCall, PublicationError, of_store}
use changesafe.Publication.Ends.{Step, save, move, move_unless}

-- a list of calls, the latest first, adds only calls of a kind to the given one
pub data Adds (P : ExternalCall → Type 0) (calls : List ExternalCall)
    : List ExternalCall → Type 0 where
  none_added : Adds P calls calls
  one_added :
      {call : ExternalCall} {later : List ExternalCall}
      → P call
      → Adds P calls later
      → Adds P calls (call ∷ later)

-- the entry that a save returns
abbrev pub stamped : Service → PublicationLedgerEntry → PublicationLedgerEntry
stamped p entry = record entry { updated_at = p.saved_at entry }

module _ (P : ExternalCall → Type 0) (calls : List ExternalCall) where
  -- an action adds only such calls, whatever it returns
  abbrev pub Kept : {A : Type 0} → Step A → Type 0
  Kept m = (w : World) → Adds P calls w.external_calls → Adds P calls (final (m w)).external_calls

  continue-Kept :
      {A B : Type 0} (r : Result PublicationError A) (f : A → Step B) (w : World)
      → ((a : A) → r ≡ ok a → Kept (f a))
      → Adds P calls w.external_calls
      → Adds P calls (final (continue r f w)).external_calls
  continue-Kept (ok a) f w next h = next a refl w h
  continue-Kept (err e) f w next h = h

  pub bind-Kept :
      {A B : Type 0} (m : Step A) (f : A → Step B)
      → Kept m
      → ((a : A) → Kept (f a))
      → Kept (m >>= f)
  bind-Kept m f first next w h = continue-Kept (m w).0 f (m w).1 (λ a e. next a) (first w h)

  pub lift-Kept :
      {A B : Type 0} (r : Result PublicationError A) (f : A → Step B)
      → ((a : A) → r ≡ ok a → Kept (f a))
      → Kept (lift r >>= f)
  lift-Kept r f next w h = continue-Kept r f w next h

  pub if-Kept :
      {A : Type 0} (b : Bool) (m n : Step A)
      → (b ≡ true → Kept m)
      → (b ≡ false → Kept n)
      → Kept (if b then m else n)
  if-Kept true m n yes_case no_case = yes_case refl
  if-Kept false m n yes_case no_case = no_case refl

  -- A chain that starts with a save goes on with the stamped entry.
  pub save-Kept :
      {B : Type 0} (p : Service) (entry : PublicationLedgerEntry)
      (f : PublicationLedgerEntry → Step B)
      → Kept (f (stamped p entry))
      → Kept (save p entry >>= f)
  save-Kept p entry f next w h = elim (save_publication-cases entry (p.saved_at entry) w.store) [
    | inl refused ↦
        subst
          (λ (x : Result StoreError PublicationLedgerEntry × RunStore).
            Adds P calls
              (final (continue (of_store x.0) f (record w { store = x.1 }))).external_calls)
          (sym refused) h
    | inr (free, done_so) ↦
        subst
          (λ (x : Result StoreError PublicationLedgerEntry × RunStore).
            Adds P calls
              (final (continue (of_store x.0) f (record w { store = x.1 }))).external_calls)
          (sym done_so) (next _ h)
  ]

  pub move_unless-Kept :
      (b : Bool) (p : Service) (id : String) (state : RunState) (u : Update)
      → Kept (move_unless b p id state u)
  move_unless-Kept true p id state u = λ w h. h
  move_unless-Kept false p id state u =
      bind-Kept (move p id state u) (λ row. pure tt) (λ w h. h) (λ row w h. h)

-- A save returns the stamped entry.
pub save-stamped :
    (p : Service) (entry saved : PublicationLedgerEntry) (w : World)
    → (save p entry w).0 ≡ ok saved
    → saved ≡ stamped p entry
save-stamped p entry saved w h = elim (save_publication-cases entry (p.saved_at entry) w.store) [
  | inl refused ↦ absurd (
      err-ne-ok (
        sym (ap (λ (x : Result StoreError PublicationLedgerEntry × RunStore). of_store x.0) refused)
        ∙ h))
  | inr (free, done_so) ↦ ok-injective (
      sym h
      ∙ ap (λ (x : Result StoreError PublicationLedgerEntry × RunStore). of_store x.0) done_so)
]
