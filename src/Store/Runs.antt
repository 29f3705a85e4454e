-- ===== src/Store/Runs.antt =====
-- `get`, `create`, `transition` and `events` of `RunStore`. The identity of a new run and the time
-- are arguments.
use changesafe.Prelude.{
  ℕ, zero, suc, ◌+◌, ◌*◌, ◌^◌, ◌/◌, ◌%◌, ◌-◌, Bool, true, false, not, ◌&&◌, ◌||◌, Option, none,
  some, List, [], ◌∷◌, ◌++◌, String, is_truthy, filter, any, ltb, leb, ◌==◌, if◌then◌else◌, Result,
  ok, err,
}
use changesafe.Exec.{Exec, pure, raise, ◌>>◌}
use changesafe.Domain.Change.{ChangeRequest}
use changesafe.Domain.Context.{EvidenceRef}
use changesafe.Domain.Analysis.{AnalysisResult, PublicError}
use changesafe.Domain.Publication.{PublicationReceipt, Decimal}
use changesafe.Store.States.{RunState, created, allowed, title, is_completed}
use changesafe.Store.Tables.{
  RunRow, EventRow, UsageRow, RunStore, StoreError, unknown_run, invalid_transition,
  budget_exceeded, integrity, has_id, find_run, event_of, events_of, max_sequence, committed,
  usage_of,
}
use changesafe.Store.Scrub.{run_from_row}

-- how many digits a number has beyond the 28 of Python's decimal context
unfoldable pub excess_digits : ℕ → ℕ → ℕ
excess_digits zero n = 0
excess_digits (suc fuel) n = elim (ltb n (10 ^ 28)) [
  | true ↦ 0
  | false ↦ suc (excess_digits fuel (n / 10))
]

-- the nearest multiple of a unit, and of two the even one
unfoldable pub half_even : ℕ → ℕ → ℕ
half_even n unit =
    let q = n / unit in
    let r = n % unit in
    if ltb unit (2 * r) || 2 * r == unit && q % 2 == 1 then (q + 1) * unit else q * unit

-- the coefficient of a product, rounded to 28 digits; a number has no more digits than its value
unfoldable pub in_context : ℕ → ℕ
unfolding excess_digits half_even
in_context n = half_even n (10 ^ excess_digits n n)

-- `_usd_to_micros`: the product in the decimal context, and then up to the next whole number
unfoldable pub usd_to_micros : Decimal → ℕ
unfolding in_context
usd_to_micros value =
    (in_context (value.coefficient * 1_000_000) + (10 ^ value.places - 1)) / 10 ^ value.places

-- `self.get(run_id)`
unfoldable pub get : String → RunStore → Option RunRow
get id s = elim (find_run s id) [ none ↦ none | some r ↦ some (run_from_row r) ]

abbrev pub new_run : String → ChangeRequest → Option String → ℕ → RunRow
new_run id change session now = record {
  run_id = id;
  state = created;
  session_id = session;
  request = change;
  analysis = none;
  publication = none;
  error = none;
  created_at = now;
  updated_at = now;
}

abbrev pub created_event : String → ℕ → EventRow
created_event id now = record {
  run_id = id;
  sequence = 1;
  state = created;
  public_message = "Run created";
  evidence = [];
  created_at = now;
}

abbrev pub reservation_row : String → ℕ → ℕ → UsageRow
reservation_row id micros now = record {
  run_id = id;
  reserved_microusd = micros;
  actual_microusd = none;
  usage = none;
  created_at = now;
  updated_at = now;
}

-- `llm_budget_usd is not None and committed + reservation > budget`
abbrev pub over_budget : Option Decimal → ℕ → ℕ → Bool
over_budget none committed_micros reservation = false
over_budget (some budget) committed_micros reservation =
    ltb (usd_to_micros budget) (committed_micros + reservation)

-- a connection in a transaction: the tables that are committed, and those that its statements see and
-- write
pub record Connection : Type 0 where
  pub database : RunStore
  pub working : RunStore

abbrev pub Statement : Type 0 → Type 0
Statement A = Exec Connection StoreError A

abbrev pub commit : Statement Unit
commit c = (ok tt, record c { database = c.working })

abbrev pub rollback : Statement Unit
rollback c = (ok tt, record c { working = c.database })

-- what the file holds after the connection is closed
abbrev pub closed : {A : Type 0} → Result StoreError A × Connection → Result StoreError A × RunStore
closed (r, c) = (r, c.database)

-- `async with aiosqlite.connect(…)`: what is not committed is lost
abbrev pub with_connection : {A : Type 0} → Statement A → Exec RunStore StoreError A
with_connection m s = closed (m (record { database = s; working = s }))

-- an insertion, which the key refuses if a row has it already
abbrev pub insert_row : (RunStore → Bool) → (RunStore → RunStore) → Statement Unit
insert_row taken add c =
    if taken c.working then (err integrity, c) else (ok tt, record c { working = add c.working })

-- the three `INSERT` statements
unfoldable pub insert_into_runs : RunRow → Statement Unit
insert_into_runs r =
    insert_row (λ s. any (has_id r.run_id) s.runs) (λ s. record s { runs = s.runs ++ r ∷ [] })

unfoldable pub insert_into_events : EventRow → Statement Unit
insert_into_events e =
    insert_row (λ s. any (λ d. event_of e.run_id d && d.sequence == e.sequence) s.run_events)
      (λ s. record s { run_events = s.run_events ++ e ∷ [] })

unfoldable pub insert_into_usage : UsageRow → Statement Unit
insert_into_usage u =
    insert_row (λ s. any (usage_of u.run_id) s.llm_usage)
      (λ s. record s { llm_usage = s.llm_usage ++ u ∷ [] })

-- from the first insertion on
unfoldable pub insert_run : String → ChangeRequest → Option String → ℕ → ℕ → Statement RunRow
unfolding insert_into_runs insert_into_events insert_into_usage
insert_run id change session reservation now = do
  insert_into_runs (new_run id change session now)
  insert_into_events (created_event id now)
  if reservation == 0 then pure tt else insert_into_usage (reservation_row id reservation now)
  commit
  pure (new_run id change session now)

-- the block under the connection
unfoldable pub create_run :
    String → ChangeRequest → Option String → ℕ → Option Decimal → ℕ → Statement RunRow
unfolding insert_run
create_run id change session reservation budget_usd now c =
    if not (reservation == 0) && over_budget budget_usd (committed c.working.llm_usage) reservation
    then (rollback >> raise budget_exceeded) c
    else insert_run id change session reservation now c

unfoldable pub create :
    String
    → ChangeRequest
    → Option String
    → Decimal
    → Option Decimal
    → ℕ
    → Exec RunStore StoreError RunRow
unfolding create_run
create id change session reservation_usd budget_usd now =
    with_connection (create_run id change session (usd_to_micros reservation_usd) budget_usd now)

-- the keyword arguments of `transition`
pub record Update : Type 0 where
  pub public_message : String
  pub evidence : List EvidenceRef
  pub analysis : Option AnalysisResult
  pub publication : Option PublicationReceipt
  pub error : Option PublicError
  pub clear_error : Bool

-- a call with a message alone
abbrev pub plain : String → Update
plain message = record {
  public_message = message;
  evidence = [];
  analysis = none;
  publication = none;
  error = none;
  clear_error = false;
}

-- `new if new is not None else old`
abbrev pub or_else {ℓ} : {A : Type ℓ} → Option A → Option A → Option A
or_else none old = old
or_else (some a) old = some a

unfoldable pub updated_run : RunState → Update → ℕ → RunRow → RunRow
updated_run state u now r = record r {
  state = state;
  analysis = or_else u.analysis r.analysis;
  publication = or_else u.publication r.publication;
  error = if is_completed state || u.clear_error then none else or_else u.error r.error;
  updated_at = now;
}

-- `UPDATE runs SET … WHERE run_id = ?`
unfoldable pub update_runs : String → (RunRow → RunRow) → List RunRow → List RunRow
update_runs id f [] = []
update_runs id f (r ∷ rs) = (if has_id id r then f r else r) ∷ update_runs id f rs

unfoldable pub transition_event : String → RunState → Update → ℕ → RunStore → EventRow
transition_event id state u now s = record {
  run_id = id;
  sequence = max_sequence (events_of s id) + 1;
  state = state;
  public_message = if is_truthy u.public_message then u.public_message else title state;
  evidence = u.evidence;
  created_at = now;
}

-- the tables after an accepted transition
unfoldable pub advance : String → RunState → Update → ℕ → RunStore → RunStore
unfolding updated_run update_runs transition_event
advance id state u now s = record s {
  runs = update_runs id (updated_run state u now) s.runs;
  run_events = s.run_events ++ transition_event id state u now s ∷ [];
}

-- what the last `get` gives; the row is there, since the transaction has just updated it
abbrev pub returned : Option RunRow → Result StoreError RunRow
returned none = err unknown_run
returned (some r) = ok r

unfoldable pub transition_from :
    Option RunRow → String → RunState → Update → ℕ → Exec RunStore StoreError RunRow
unfolding advance get
transition_from none id state u now s = (err unknown_run, s)
transition_from (some row) id state u now s =
    if allowed row.state state
    then (let t = advance id state u now s in (returned (get id t), t))
    else (err invalid_transition, s)

unfoldable pub transition : String → RunState → Update → ℕ → Exec RunStore StoreError RunRow
unfolding transition_from
transition id state u now s = transition_from (find_run s id) id state u now s

-- `ORDER BY sequence`, by insertion
unfoldable pub insert_by_sequence : EventRow → List EventRow → List EventRow
insert_by_sequence e [] = e ∷ []
insert_by_sequence e (d ∷ ds) =
    let rest = insert_by_sequence e ds in if leb e.sequence d.sequence then e ∷ d ∷ ds else d ∷ rest

unfoldable pub sort_by_sequence : List EventRow → List EventRow
unfolding insert_by_sequence
sort_by_sequence [] = []
sort_by_sequence (e ∷ es) = insert_by_sequence e (sort_by_sequence es)

-- `events(run_id, after_sequence=…)`
unfoldable pub events : String → ℕ → RunStore → List EventRow
unfolding sort_by_sequence
events id after s =
    sort_by_sequence (filter (λ e. event_of id e && ltb after e.sequence) s.run_events)
