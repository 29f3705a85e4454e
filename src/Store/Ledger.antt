-- ===== src/Store/Ledger.antt =====
-- `get_publication` and `save_publication` of `RunStore`.
use changesafe.Prelude.{
  ℕ, Bool, false, not, Option, none, some, List, [], ◌∷◌, String, ◌=s=◌, find?, if◌then◌else◌, ok,
  err,
}
use changesafe.Exec.{Exec}
use changesafe.Domain.Publication.{PublicationLedgerEntry}
use changesafe.Store.Tables.{LedgerRow, RunStore, StoreError, other_artifact}

abbrev pub has_key : String → LedgerRow → Bool
has_key key r = r.idempotency_key =s= key

unfoldable pub find_publication : RunStore → String → Option LedgerRow
find_publication s key = find? (has_key key) s.publication_ledger

unfoldable pub get_publication : String → RunStore → Option PublicationLedgerEntry
get_publication key s = elim (find_publication s key) [ none ↦ none | some r ↦ some r.entry ]

-- `ON CONFLICT(idempotency_key) DO UPDATE SET receipt_json = …, updated_at = …`
unfoldable pub upsert : LedgerRow → List LedgerRow → List LedgerRow
upsert row [] = row ∷ []
upsert row (r ∷ rs) =
    let rest = upsert row rs in
    if has_key row.idempotency_key r
    then record r { entry = row.entry; updated_at = row.updated_at } ∷ rs
    else r ∷ rest

abbrev pub ledger_row : PublicationLedgerEntry → LedgerRow
ledger_row e = record {
  idempotency_key = e.idempotency_key;
  run_id = e.run_id;
  artifact_hash = e.artifact_hash;
  entry = e;
  created_at = e.created_at;
  updated_at = e.updated_at;
}

-- `existing is not None and existing[0] != entry.artifact_hash`
abbrev pub is_bound_elsewhere : Option LedgerRow → String → Bool
is_bound_elsewhere none hash = false
is_bound_elsewhere (some r) hash = not (r.artifact_hash =s= hash)

unfoldable pub save_publication :
    PublicationLedgerEntry → ℕ → Exec RunStore StoreError PublicationLedgerEntry
unfolding upsert
save_publication entry now s =
    let updated = record entry { updated_at = now } in
    if is_bound_elsewhere (find_publication s entry.idempotency_key) entry.artifact_hash
    then (err other_artifact, s)
    else (
      ok updated,
      record s { publication_ledger = upsert (ledger_row updated) s.publication_ledger },
    )
