-- ===== src/Publication/Bound.antt =====
-- The entry that a review binds: it has a mode, and the ledger does not bind its key to another artifact.
use changesafe.Prelude.{
  some-injective, none-ne-some, ◌≡◌, refl, sym, ap, ◌∙◌, subst, inl, inr, Bool, true, false, not,
  ◌&&◌, Option, none, some, String, ◌=s=◌, =s=_iff, Result, ok, err, ok-injective, Option-cases,
  if◌then◌else◌, arith,
}
use changesafe.Domain.Publication.{PublicationMode, PublicationReceipt, PublicationLedgerEntry}
use changesafe.Store.Tables.{RunRow, LedgerRow, RunStore}
use changesafe.Store.Steps.{IsReachable}
use changesafe.Store.Ledger.{find_publication, get_publication, is_bound_elsewhere}
use changesafe.Store.Entries.{ledger_entries_match}
use changesafe.Config.Settings.{Settings}
use changesafe.Publication.Intent.{
  Intent, with_intent, configured_intent, bind_unbound, bind_intent,
}
use changesafe.Publication.Ports.{Service, PublicationError, invalid_entry, foreign_entry}
use changesafe.Publication.Review.{digests_valid, entry_of}

-- the ledger does not bind the key of the entry to another artifact
abbrev pub IsFree : PublicationLedgerEntry → RunStore → Type 0
IsFree entry s =
    is_bound_elsewhere (find_publication s entry.idempotency_key) entry.artifact_hash ≡ false

abbrev pub HasMode : PublicationLedgerEntry → Type 0
HasMode entry = (m : PublicationMode) × (entry.publication_mode ≡ some m)

abbrev pub SameKey : PublicationLedgerEntry → PublicationLedgerEntry → Type 0
SameKey a b = (a.idempotency_key ≡ b.idempotency_key) × (a.artifact_hash ≡ b.artifact_hash)

-- an entry with a mode, and with the key of another
abbrev pub BoundTo : PublicationLedgerEntry → PublicationLedgerEntry → Type 0
BoundTo entry bound = HasMode bound × SameKey bound entry

some-BoundTo :
    (i : Intent) (entry bound : PublicationLedgerEntry)
    → some (with_intent i entry) ≡ some bound
    → BoundTo entry bound
some-BoundTo i entry bound h =
    subst (BoundTo entry) (some-injective h) ((i.publication_mode, refl), (refl, refl))

unless-BoundTo :
    (b : Bool) (i : Intent) (entry bound : PublicationLedgerEntry)
    → (if b then none else some (with_intent i entry)) ≡ some bound
    → BoundTo entry bound
unless-BoundTo true i entry bound h = absurd (none-ne-some h)
unless-BoundTo false i entry bound h = some-BoundTo i entry bound h

unbound-BoundTo :
    (s : Settings) (run : RunRow) (entry bound : PublicationLedgerEntry)
    (receipt : Option PublicationReceipt)
    → bind_unbound s run entry receipt ≡ some bound
    → BoundTo entry bound
unfolding bind_unbound
unbound-BoundTo s run entry bound (some receipt) h = some-BoundTo _ entry bound h
unbound-BoundTo s run entry bound none h = unless-BoundTo _ (configured_intent s run) entry bound h

abbrev bind_with :
    Settings
    → RunRow
    → PublicationLedgerEntry
    → Option PublicationMode
    → Option PublicationLedgerEntry
bind_with s run entry mode = elim mode [
  | some m ↦ some entry
  | none ↦ bind_unbound s run entry entry.receipt
]

pub bind-BoundTo :
    (s : Settings) (run : RunRow) (entry bound : PublicationLedgerEntry)
    → bind_intent s run entry ≡ some bound
    → BoundTo entry bound
unfolding bind_intent
bind-BoundTo s run entry bound h = elim (Option-cases entry.publication_mode) [
  | inl e ↦ unbound-BoundTo s run entry bound entry.receipt (sym (ap (bind_with s run entry) e) ∙ h)
  | inr (m, e) ↦
      subst (BoundTo entry) (some-injective (sym (ap (bind_with s run entry) e) ∙ h))
        ((m, e), (refl, refl))
]

pub same-IsFree :
    (a b : PublicationLedgerEntry) (s : RunStore) → SameKey a b → IsFree b s → IsFree a s
same-IsFree a b s (key, hash) free =
    ap (λ k. is_bound_elsewhere (find_publication s k) a.artifact_hash) key
    ∙ ap (λ h. is_bound_elsewhere (find_publication s b.idempotency_key) h) hash
    ∙ free

found-IsFree :
    (s : RunStore) (key : String) (r : LedgerRow)
    → IsReachable s
    → find_publication s key ≡ some r
    → IsFree r.entry s
found-IsFree s key r reach found =
    let (hash, name) = ledger_entries_match s key r reach found in
    ap (λ k. is_bound_elsewhere (find_publication s k) r.entry.artifact_hash) name
    ∙ ap (λ o. is_bound_elsewhere o r.entry.artifact_hash) found
    ∙ ground (arith, =s=_iff r.artifact_hash r.entry.artifact_hash, hash)

kept-entry :
    (b : Bool) (e : PublicationError) (entry bound : PublicationLedgerEntry)
    → ◌≡◌ {A = Result PublicationError PublicationLedgerEntry}
        (if b then err e else ok entry)
        (ok bound)
    → entry ≡ bound
kept-entry true e entry bound h = cc h
kept-entry false e entry bound h = ok-injective h

made-entry :
    (b : Bool) (e : PublicationError) (entry bound : PublicationLedgerEntry)
    → ◌≡◌ {A = Result PublicationError PublicationLedgerEntry}
        (if b then ok entry else err e)
        (ok bound)
    → entry ≡ bound
made-entry true e entry bound h = ok-injective h
made-entry false e entry bound h = cc h

abbrev entry_from :
    Service
    → RunRow
    → String
    → String
    → Option LedgerRow
    → Result PublicationError PublicationLedgerEntry
entry_from p run key hash row =
    entry_of p run key hash (elim row [ none ↦ none | some r ↦ some r.entry ])

-- The entry that an approval takes or makes may be saved.
pub entry-IsFree :
    (p : Service) (run : RunRow) (key hash : String) (s : RunStore) (entry : PublicationLedgerEntry)
    → IsReachable s
    → entry_of p run key hash (get_publication key s) ≡ ok entry
    → IsFree entry s
unfolding get_publication entry_of
entry-IsFree p run key hash s entry reach h = elim (Option-cases (find_publication s key)) [
  | inl missing ↦
      subst (λ e. IsFree e s)
        (made-entry (digests_valid key hash) invalid_entry _ entry
          (sym (ap (entry_from p run key hash) missing) ∙ h))
        (ap (λ o. is_bound_elsewhere o hash) missing)
  | inr (r, found) ↦
      subst (λ e. IsFree e s)
        (kept-entry (not r.entry.completed && not (r.entry.run_id =s= run.run_id)) foreign_entry
          r.entry entry (sym (ap (entry_from p run key hash) found) ∙ h))
        (found-IsFree s key r reach found)
]
