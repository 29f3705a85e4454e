-- ===== src/Store/Steps.antt =====
-- The writes of `RunStore` as steps from one state of the tables to the next, and the states that
-- sequences of them reach from the empty tables, whatever the order and whether or not they raise.
use changesafe.Prelude.{ℕ, Option, String}
use changesafe.Exec.{final}
use changesafe.Domain.Change.{ChangeRequest}
use changesafe.Domain.Publication.{Decimal, LlmUsage, PublicationLedgerEntry}
use changesafe.Store.States.{RunState}
use changesafe.Store.Tables.{RunStore, empty}
use changesafe.Store.Runs.{Update, create, transition}
use changesafe.Store.Usage.{record_llm_usage, release_llm_reservation}
use changesafe.Store.Ledger.{save_publication}

-- a call of a method that writes, with its arguments and the time
pub data Call : Type 0 where
  create_call : String → ChangeRequest → Option String → Decimal → Option Decimal → ℕ → Call
  transition_call : String → RunState → Update → ℕ → Call
  record_llm_usage_call : String → LlmUsage → ℕ → Call
  release_llm_reservation_call : String → ℕ → Call
  save_publication_call : PublicationLedgerEntry → ℕ → Call

-- the tables after a call
unfoldable pub run : Call → RunStore → RunStore
run (create_call id change session reservation budget now) s =
    final (create id change session reservation budget now s)
run (transition_call id state u now) s = final (transition id state u now s)
run (record_llm_usage_call id usage now) s = final (record_llm_usage id usage now s)
run (release_llm_reservation_call id now) s = final (release_llm_reservation id now s)
run (save_publication_call entry now) s = final (save_publication entry now s)

-- the tables that calls in some order lead to from the empty ones
pub data IsReachable : RunStore → Type 0 where
  at_start : IsReachable empty
  after_call : {s : RunStore} → IsReachable s → (c : Call) → IsReachable (run c s)
