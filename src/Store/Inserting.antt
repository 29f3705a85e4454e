-- ===== src/Store/Inserting.antt =====
-- The transaction of `create`, as what it leaves in the file.
use changesafe.Prelude.{◌≡◌, ◌⊎◌, ℕ, false, Option, String, any, ok, err, arith}
use changesafe.Domain.Change.{ChangeRequest}
use changesafe.Domain.Publication.{Decimal}
use changesafe.Store.Tables.{RunStore, integrity, budget_exceeded, has_id}
use changesafe.Store.Runs.{
  usd_to_micros, create, create_run, insert_run, insert_into_runs, insert_into_events,
  insert_into_usage, with_connection, new_run,
}
use changesafe.Store.Insert.{inserted}

-- Either an insertion is refused and the file is as it was, or all three are committed.
pub insert_run-cases :
    (id : String) (change : ChangeRequest) (session : Option String) (reservation now : ℕ)
    (s : RunStore)
    → (with_connection (insert_run id change session reservation now) s ≡ (err integrity, s))
      ⊎ ((any (has_id id) s.runs ≡ false)
          × (with_connection (insert_run id change session reservation now) s
              ≡ (ok (new_run id change session now), inserted id change session reservation now s)))
unfolding insert_run inserted insert_into_runs insert_into_events insert_into_usage
insert_run-cases id change session reservation now s = ground arith

pub create-cases :
    (id : String) (change : ChangeRequest) (session : Option String) (reservation : Decimal)
    (budget : Option Decimal) (now : ℕ) (s : RunStore)
    → (create id change session reservation budget now s ≡ (err budget_exceeded, s))
      ⊎ (create id change session reservation budget now s
          ≡ with_connection (insert_run id change session (usd_to_micros reservation) now) s)
unfolding create create_run
create-cases id change session reservation budget now s = ground arith
