-- ===== src/Store/Tables.antt =====
-- The rows of the four tables, the errors, and the queries that several methods share.
use changesafe.Prelude.{
  ℕ, ◌+◌, max, Bool, Option, none, some, List, [], ◌∷◌, String, ◌=s=◌, filter, find?,
}
use changesafe.Domain.Change.{ChangeRequest}
use changesafe.Domain.Context.{EvidenceRef}
use changesafe.Domain.Analysis.{AnalysisResult, PublicError}
use changesafe.Domain.Publication.{PublicationReceipt, PublicationLedgerEntry, LlmUsage}
use changesafe.Store.States.{RunState}

-- a row of `runs`; moments are in microseconds
pub record RunRow : Type 0 where
  pub run_id : String
  pub state : RunState
  pub session_id : Option String
  pub request : ChangeRequest
  pub analysis : Option AnalysisResult
  pub publication : Option PublicationReceipt
  pub error : Option PublicError
  pub created_at : ℕ
  pub updated_at : ℕ

-- a row of `run_events`
pub record EventRow : Type 0 where
  pub run_id : String
  pub sequence : ℕ
  pub state : RunState
  pub public_message : String
  pub evidence : List EvidenceRef
  pub created_at : ℕ

-- a row of `publication_ledger`
pub record LedgerRow : Type 0 where
  pub idempotency_key : String
  pub run_id : String
  pub artifact_hash : String
  pub entry : PublicationLedgerEntry
  pub created_at : ℕ
  pub updated_at : ℕ

-- a row of `llm_usage`
pub record UsageRow : Type 0 where
  pub run_id : String
  pub reserved_microusd : ℕ
  pub actual_microusd : Option ℕ
  pub usage : Option LlmUsage
  pub created_at : ℕ
  pub updated_at : ℕ

pub record RunStore : Type 0 where
  pub runs : List RunRow
  pub run_events : List EventRow
  pub publication_ledger : List LedgerRow
  pub llm_usage : List UsageRow

abbrev pub empty : RunStore
empty = record { runs = []; run_events = []; publication_ledger = []; llm_usage = [] }

-- `KeyError`, `InvalidTransition`, `LlmBudgetExceeded`, the `ValueError` of the ledger, and
-- SQLite's error on a key that is there already
pub data StoreError : Type 0 where
  unknown_run invalid_transition budget_exceeded other_artifact integrity : StoreError

abbrev pub has_id : String → RunRow → Bool
has_id id r = r.run_id =s= id

-- `SELECT * FROM runs WHERE run_id = ?`
unfoldable pub find_run : RunStore → String → Option RunRow
find_run s id = find? (has_id id) s.runs

abbrev pub event_of : String → EventRow → Bool
event_of id e = e.run_id =s= id

-- the events of a run, in the order of insertion
unfoldable pub events_of : RunStore → String → List EventRow
events_of s id = filter (event_of id) s.run_events

-- `COALESCE(MAX(sequence), 0)`
unfoldable pub max_sequence : List EventRow → ℕ
max_sequence [] = 0
max_sequence (e ∷ es) = max e.sequence (max_sequence es)

abbrev pub usage_of : String → UsageRow → Bool
usage_of id u = u.run_id =s= id

-- `COALESCE(actual_microusd, reserved_microusd)`
abbrev pub charge : UsageRow → ℕ
charge u = elim u.actual_microusd [ none ↦ u.reserved_microusd | some n ↦ n ]

-- `SELECT COALESCE(SUM(COALESCE(actual_microusd, reserved_microusd)), 0) FROM llm_usage`
unfoldable pub committed : List UsageRow → ℕ
committed [] = 0
committed (u ∷ us) = charge u + committed us
