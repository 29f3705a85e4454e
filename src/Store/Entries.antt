-- ===== src/Store/Entries.antt =====
-- The receipt of each row of the publication ledger belongs to the artifact that its key is bound to.
use changesafe.Prelude.{
  ◌≡◌, refl, sym, ap, ◌∙◌, subst, inl, inr, ℕ, false, Option, none, some, List, [], ◌∷◌, String,
  ◌=s=◌, =s=_iff, find?, if◌then◌else◌, Bool-cases, arith,
}
use changesafe.Exec.{final}
use changesafe.Domain.Publication.{PublicationLedgerEntry}
use changesafe.Store.Tables.{LedgerRow, RunStore, find_run}
use changesafe.Store.Ledger.{has_key, find_publication, is_bound_elsewhere, ledger_row}
use changesafe.Store.Runs.{transition}
use changesafe.Store.Usage.{record_llm_usage, release_llm_reservation}
use changesafe.Store.Steps.{
  Call, create_call, transition_call, record_llm_usage_call, release_llm_reservation_call,
  save_publication_call, run, IsReachable, at_start, after_call,
}
use changesafe.Store.Binding.{
  merged, saved, find-saved, save_publication-cases, ledger-create, ledger-transition_from,
}

-- the row names its own key and artifact in its receipt
unfoldable pub Matches : Option LedgerRow → Type 0
Matches none = Unit {0}
Matches (some r) =
    (r.entry.artifact_hash ≡ r.artifact_hash) × (r.entry.idempotency_key ≡ r.idempotency_key)

found-key :
    (key : String) (rs : List LedgerRow) (r : LedgerRow)
    → find? (has_key key) rs ≡ some r
    → r.idempotency_key ≡ key
found-key key [] r h = cc
found-key key (q ∷ rs) r h = ground (arith, found-key key rs r, =s=_iff q.idempotency_key key)

merged-Matches :
    (entry : PublicationLedgerEntry) (o : Option LedgerRow)
    → is_bound_elsewhere o entry.artifact_hash ≡ false
    → ((r : LedgerRow) → o ≡ some r → r.idempotency_key ≡ entry.idempotency_key)
    → Matches (some (merged (ledger_row entry) o))
unfolding Matches
merged-Matches entry none h k = (refl, refl)
merged-Matches entry (some r) h k =
    (ground (arith, h, =s=_iff r.artifact_hash entry.artifact_hash), sym (k r refl))

saved-Matches :
    (entry : PublicationLedgerEntry) (now : ℕ) (s : RunStore) (key : String)
    → is_bound_elsewhere (find_publication s entry.idempotency_key) entry.artifact_hash ≡ false
    → Matches (find_publication s key)
    → Matches (find_publication (saved entry now s) key)
unfolding find_publication
saved-Matches entry now s key free m =
    let h = find-saved entry now s key in
    elim (Bool-cases (entry.idempotency_key =s= key)) [
      | inl same ↦
          let q = (=s=_iff entry.idempotency_key key).0 same in
          subst Matches
            (sym (
              h
              ∙ ap
                  (λ b.
                    if b
                    then some (
                        merged (ledger_row (record entry { updated_at = now }))
                          (find_publication s key))
                    else find_publication s key)
                  same))
            (merged-Matches (record entry { updated_at = now }) (find_publication s key)
              (subst (λ k. is_bound_elsewhere (find_publication s k) entry.artifact_hash ≡ false) q
                free)
              (λ r f. found-key key s.publication_ledger r f ∙ sym q))
      | inr differs ↦
          subst Matches
            (sym (
              h
              ∙ ap
                  (λ b.
                    if b
                    then some (
                        merged (ledger_row (record entry { updated_at = now }))
                          (find_publication s key))
                    else find_publication s key)
                  differs))
            m
    ]

same-Matches :
    (s t : RunStore) (key : String)
    → t.publication_ledger ≡ s.publication_ledger
    → Matches (find_publication s key)
    → Matches (find_publication t key)
unfolding find_publication
same-Matches s t key h m = subst Matches (sym (ap (λ rs. find? (has_key key) rs) h)) m

run-Matches :
    (c : Call) (s : RunStore) (key : String)
    → Matches (find_publication s key)
    → Matches (find_publication (run c s) key)
unfolding run record_llm_usage release_llm_reservation transition
run-Matches (create_call id change session reservation budget now) s key m =
    same-Matches s _ key (ledger-create id change session reservation budget now s) m
run-Matches (transition_call id state u now) s key m =
    same-Matches s _ key (ledger-transition_from (find_run s id) id state u now s) m
run-Matches (record_llm_usage_call id usage now) s key m = same-Matches s _ key refl m
run-Matches (release_llm_reservation_call id now) s key m = same-Matches s _ key refl m
run-Matches (save_publication_call entry now) s key m = elim (save_publication-cases entry now s) [
  | inl h ↦ subst (λ x. Matches (find_publication (final x) key)) (sym h) m
  | inr (free, h) ↦
      subst (λ x. Matches (find_publication (final x) key)) (sym h)
        (saved-Matches entry now s key free m)
]

row-key :
    (s : RunStore) (key : String) (r : LedgerRow)
    → find_publication s key ≡ some r
    → r.idempotency_key ≡ key
unfolding find_publication
row-key s key r found = found-key key s.publication_ledger r found

reachable-Matches : (s : RunStore) (key : String) → IsReachable s → Matches (find_publication s key)
unfolding Matches find_publication
reachable-Matches _ key at_start = tt
reachable-Matches _ key (after_call {s} h c) = run-Matches c s key (reachable-Matches s key h)

-- In tables that calls of the store lead to, the receipt in the ledger's row for a key names that key
-- and the artifact to which the row binds it.
pub ledger_entries_match :
    (s : RunStore) (key : String) (r : LedgerRow)
    → IsReachable s
    → find_publication s key ≡ some r
    → (r.entry.artifact_hash ≡ r.artifact_hash) × (r.entry.idempotency_key ≡ key)
unfolding Matches
ledger_entries_match s key r reach found =
    let (hash, name) = subst Matches found (reachable-Matches s key reach) in
    (hash, name ∙ row-key s key r found)
