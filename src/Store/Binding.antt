-- ===== src/Store/Binding.antt =====
-- The publication ledger binds a key to one artifact.
use changesafe.Prelude.{
  ◌≡◌, refl, sym, ap, ◌∙◌, subst, ◌⊎◌, inl, inr, ℕ, Bool, true, false, Option, none, some, List, [],
  ◌∷◌, String, ◌=s=◌, =s=_iff, =s=_refl, find?, if◌then◌else◌, Option-cases, Result, ok, err,
  err-ne-ok, arith,
}
use changesafe.Exec.{final}
use changesafe.Domain.Change.{ChangeRequest}
use changesafe.Domain.Publication.{Decimal, PublicationLedgerEntry}
use changesafe.Store.States.{RunState}
use changesafe.Store.Tables.{find_run, RunRow, LedgerRow, RunStore, StoreError, other_artifact}
use changesafe.Store.Ledger.{
  has_key, find_publication, get_publication, upsert, save_publication, is_bound_elsewhere,
  ledger_row,
}
use changesafe.Store.Runs.{
  Update, create, create_run, insert_run, insert_into_runs, insert_into_events, insert_into_usage,
  transition, transition_from, advance,
}
use changesafe.Store.Usage.{record_llm_usage, release_llm_reservation}
use changesafe.Store.Steps.{
  Call, create_call, transition_call, record_llm_usage_call, release_llm_reservation_call,
  save_publication_call, run,
}

-- the row that an upsert leaves at its key
abbrev pub merged : LedgerRow → Option LedgerRow → LedgerRow
merged row none = row
merged row (some r) = record r { entry = row.entry; updated_at = row.updated_at }

find-upsert :
    (row : LedgerRow) (key : String) (rs : List LedgerRow)
    → find? (has_key key) (upsert row rs) ≡ (
        if row.idempotency_key =s= key
        then some (merged row (find? (has_key key) rs))
        else find? (has_key key) rs)
unfolding upsert
find-upsert row key [] = ground arith
find-upsert row key (r ∷ rs) = ground (
  arith,
  find-upsert row key rs,
  =s=_iff row.idempotency_key key,
  =s=_iff r.idempotency_key key,
  =s=_iff r.idempotency_key row.idempotency_key,
)

unfoldable pub saved : PublicationLedgerEntry → ℕ → RunStore → RunStore
saved entry now s = record s {
  publication_ledger = upsert (ledger_row (record entry { updated_at = now })) s.publication_ledger;
}

pub find-saved :
    (entry : PublicationLedgerEntry) (now : ℕ) (s : RunStore) (key : String)
    → find_publication (saved entry now s) key ≡ (
        if entry.idempotency_key =s= key
        then some (merged (ledger_row (record entry { updated_at = now })) (find_publication s key))
        else find_publication s key)
unfolding saved find_publication
find-saved entry now s key =
    find-upsert (ledger_row (record entry { updated_at = now })) key s.publication_ledger

pub save_publication-cases :
    (entry : PublicationLedgerEntry) (now : ℕ) (s : RunStore)
    → (save_publication entry now s ≡ (err other_artifact, s))
      ⊎ ((is_bound_elsewhere (find_publication s entry.idempotency_key) entry.artifact_hash ≡ false)
          × (save_publication entry now s
              ≡ (ok (record entry { updated_at = now }), saved entry now s)))
unfolding save_publication saved
save_publication-cases entry now s = ground arith

get-saved :
    (entry : PublicationLedgerEntry) (now : ℕ) (s : RunStore)
    → get_publication entry.idempotency_key (saved entry now s)
      ≡ some (record entry { updated_at = now })
unfolding get_publication
get-saved entry now s =
    let h = find-saved entry now s entry.idempotency_key in
    elim (Option-cases (find_publication s entry.idempotency_key)) [
      | inl absent ↦ ground (arith, h, absent, =s=_refl entry.idempotency_key)
      | inr (r, found) ↦ ground (arith, h, found, =s=_refl entry.idempotency_key)
    ]

-- An entry that is saved without an error is what `get_publication` then gives for its key, with the
-- time of the call as the time of its update.
pub save_then_get :
    (entry updated : PublicationLedgerEntry) (now : ℕ) (s t : RunStore)
    → save_publication entry now s ≡ (ok updated, t)
    → get_publication entry.idempotency_key t ≡ some (record entry { updated_at = now })
save_then_get entry updated now s t h = elim (save_publication-cases entry now s) [
  | inl h' ↦ absurd (
      err-ne-ok
        (ap (λ (x : Result StoreError PublicationLedgerEntry × RunStore). x.0) (sym h' ∙ h)))
  | inr (free, h') ↦
      ap (λ x. get_publication entry.idempotency_key (final x)) (sym h ∙ h') ∙ get-saved entry now s
]

-- what a call may do to the row at a key: the artifact and the run stay
unfoldable pub Keeps : LedgerRow → Option LedgerRow → Type 0
Keeps r none = ⊥
Keeps r (some q) = (q.artifact_hash ≡ r.artifact_hash) × (q.run_id ≡ r.run_id)

pub ledger-create :
    (id : String) (change : ChangeRequest) (session : Option String) (reservation : Decimal)
    (budget : Option Decimal) (now : ℕ) (s : RunStore)
    → (final (create id change session reservation budget now s)).publication_ledger
      ≡ s.publication_ledger
unfolding create create_run insert_run insert_into_runs insert_into_events insert_into_usage
ledger-create id change session reservation budget now s = ground arith

pub ledger-transition_from :
    (o : Option RunRow) (id : String) (state : RunState) (u : Update) (now : ℕ) (s : RunStore)
    → (final (transition_from o id state u now s)).publication_ledger ≡ s.publication_ledger
unfolding transition_from advance
ledger-transition_from none id state u now s = refl
ledger-transition_from (some r) id state u now s = ground arith

Keeps-merged :
    (b : Bool) (row r : LedgerRow) → Keeps r (if b then some (merged row (some r)) else some r)
unfolding Keeps
Keeps-merged true row r = (refl, refl)
Keeps-merged false row r = (refl, refl)

saved-Keeps :
    (entry : PublicationLedgerEntry) (now : ℕ) (s : RunStore) (key : String) (r : LedgerRow)
    → find_publication s key ≡ some r
    → Keeps r (find_publication (saved entry now s) key)
saved-Keeps entry now s key r found =
    let b = entry.idempotency_key =s= key in
    let row = ledger_row (record entry { updated_at = now }) in
    subst (Keeps r)
      (sym (find-saved entry now s key ∙ ap (λ o. if b then some (merged row o) else o) found))
      (Keeps-merged b row r)

same-Keeps :
    (s t : RunStore) (key : String) (r : LedgerRow)
    → find_publication s key ≡ some r
    → t.publication_ledger ≡ s.publication_ledger
    → Keeps r (find_publication t key)
unfolding find_publication Keeps
same-Keeps s t key r found h =
    subst (Keeps r) (sym (ap (λ rs. find? (has_key key) rs) h ∙ found)) (refl, refl)

-- No call of a method of the store, accepted or not, takes a row out of the ledger or binds its key to
-- another artifact or another run.
pub ledger_binding :
    (c : Call) (s : RunStore) (key : String) (r : LedgerRow)
    → find_publication s key ≡ some r
    → Keeps r (find_publication (run c s) key)
unfolding run record_llm_usage release_llm_reservation transition
ledger_binding (create_call id change session reservation budget now) s key r found =
    same-Keeps s _ key r found (ledger-create id change session reservation budget now s)
ledger_binding (transition_call id state u now) s key r found =
    same-Keeps s _ key r found (ledger-transition_from (find_run s id) id state u now s)
ledger_binding (record_llm_usage_call id usage now) s key r found = same-Keeps s _ key r found refl
ledger_binding (release_llm_reservation_call id now) s key r found = same-Keeps s _ key r found refl
ledger_binding (save_publication_call entry now) s key r found =
    elim (save_publication-cases entry now s) [
      | inl h ↦
          subst (λ x. Keeps r (find_publication (final x) key)) (sym h)
            (same-Keeps s s key r found refl)
      | inr (free, h) ↦
          subst (λ x. Keeps r (find_publication (final x) key)) (sym h)
            (saved-Keeps entry now s key r found)
    ]
