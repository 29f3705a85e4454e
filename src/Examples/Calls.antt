-- ===== src/Examples/Calls.antt =====
-- The store after a few calls, and its theorems there.
use changesafe.Prelude.{
  arith, ◌≡◌, refl, suc, ◌+◌, ◌*◌, ◌^◌, ◌≤◌, ◌<◌, max, true, none, some, [], ◌∷◌, ◌++◌, drop,
  length, ◌=s=◌, ok, err,
}
use changesafe.Exec.{final}
use changesafe.Domain.Publication.{PublicationLedgerEntry}
use changesafe.Store.States.{
  RunState, loading_context, scoring_risk, generating, validating, awaiting_approval,
  preparing_preview, completed, failed, allowed,
}
use changesafe.Store.Tables.{
  budget_exceeded, RunRow, RunStore, invalid_transition, empty, find_run, events_of, committed,
}
use changesafe.Store.Scrub.{run_from_row}
use changesafe.Store.Runs.{
  created_event, plain, usd_to_micros, in_context, excess_digits, half_even, create, create_run,
  insert_run, insert_into_runs, insert_into_events, insert_into_usage, updated_run, update_runs,
  advance, transition, transition_from, transition_event, new_run, events,
}
use changesafe.Store.Ledger.{
  find_publication, get_publication, upsert, save_publication, ledger_row,
}
use changesafe.Store.Steps.{
  Call, create_call, transition_call, save_publication_call, run, IsReachable, at_start, after_call,
}
use changesafe.Store.Invariant.{IsReachable-IsConsistent}
use changesafe.Store.Advance.{IsConsistent}
use changesafe.Store.History.{
  has_been, is_awaiting_approval, is_validating, published_was_approved, approvable_was_validated,
  events_resume,
}
use changesafe.Store.Behaviour.{
  transition_accepts, transition_atomic, transition_refuses, transition_keeps_others,
  terminal_is_final,
}
use changesafe.Store.Budget.{create_within_budget, usd_to_micros_rounds_up}
use changesafe.Store.Creation.{create_inserts, create_atomic}
use changesafe.Store.Entries.{ledger_entries_match}
use changesafe.Store.Binding.{Keeps, save_then_get, ledger_binding}
use changesafe.Examples.Data.{zero_usd, rename_change, small_usd, entry}

abbrev move_to : RunState → Call
move_to state = transition_call "r1" state (plain "") 2

abbrev creation : Call
creation = create_call "r1" rename_change none small_usd none 1

abbrev new_tables : RunStore
new_tables = run creation empty

new-IsReachable : IsReachable new_tables
new-IsReachable = after_call at_start creation

abbrev preview_tables : RunStore
preview_tables = run (move_to preparing_preview) (
    run (move_to awaiting_approval) (
      run (move_to validating) (
        run (move_to generating)
          (run (move_to scoring_risk) (run (move_to loading_context) new_tables)))))

preview-IsReachable : IsReachable preview_tables
preview-IsReachable =
    after_call
      (after_call
        (after_call
          (after_call
            (after_call (after_call new-IsReachable (move_to loading_context))
              (move_to scoring_risk))
            (move_to generating))
          (move_to validating))
        (move_to awaiting_approval))
      (move_to preparing_preview)

abbrev new_row : RunRow
new_row = new_run "r1" rename_change none 1

abbrev preview_row : RunRow
preview_row = record new_row { state = preparing_preview; updated_at = 2 }

new_found : find_run new_tables "r1" ≡ some new_row
unfolding run create create_run insert_run insert_into_runs insert_into_events insert_into_usage
    usd_to_micros in_context excess_digits half_even find_run ◌=s=◌
new_found = refl

preview_found : find_run preview_tables "r1" ≡ some preview_row
unfolding run create create_run insert_run insert_into_runs insert_into_events insert_into_usage
    usd_to_micros in_context excess_digits half_even find_run ◌=s=◌ transition transition_from
    advance updated_run update_runs transition_event allowed
preview_found = refl

IsReachable-IsConsistent_example : IsConsistent preview_tables
IsReachable-IsConsistent_example = IsReachable-IsConsistent preview_tables preview-IsReachable

published_was_approved_example :
    has_been is_awaiting_approval (events_of preview_tables "r1") ≡ true
published_was_approved_example =
    published_was_approved preview_tables "r1" preview_row preview-IsReachable preview_found refl

approvable_was_validated_example : has_been is_validating (events_of preview_tables "r1") ≡ true
approvable_was_validated_example =
    approvable_was_validated preview_tables "r1" preview_row preview-IsReachable preview_found refl

events_resume_example : events "r1" 5 preview_tables ≡ drop 5 (events_of preview_tables "r1")
events_resume_example = events_resume preview_tables "r1" 5 preview-IsReachable

transition_accepts_example :
    let t = final (transition "r1" loading_context (plain "") 2 new_tables) in
    let e = transition_event "r1" loading_context (plain "") 2 new_tables in
    (transition "r1" loading_context (plain "") 2 new_tables
      ≡ (ok (run_from_row (updated_run loading_context (plain "") 2 new_row)), t))
    × (find_run t "r1" ≡ some (updated_run loading_context (plain "") 2 new_row))
    × (events_of t "r1" ≡ events_of new_tables "r1" ++ e ∷ [])
    × (e.state ≡ loading_context)
    × (e.sequence ≡ suc (length (events_of new_tables "r1")))
unfolding allowed
transition_accepts_example =
    transition_accepts "r1" loading_context (plain "") 2 new_tables new_row new-IsReachable
      new_found refl

completion_refused :
    transition "r1" completed (plain "") 2 new_tables ≡ (err invalid_transition, new_tables)
unfolding allowed
completion_refused =
    transition_refuses "r1" completed (plain "") 2 new_tables new_row new_found refl

transition_atomic_example : new_tables ≡ new_tables
transition_atomic_example =
    transition_atomic "r1" completed (plain "") 2 new_tables new_tables invalid_transition
      completion_refused

transition_keeps_others_example :
    let t = final (transition "r2" loading_context (plain "") 2 new_tables) in
    (find_run t "r1" ≡ find_run new_tables "r1") × (events_of t "r1" ≡ events_of new_tables "r1")
unfolding ◌=s=◌
transition_keeps_others_example =
    transition_keeps_others "r2" "r1" loading_context (plain "") 2 new_tables refl

abbrev completed_row : RunRow
completed_row = record new_row { state = completed }

abbrev completed_tables : RunStore
completed_tables = record empty { runs = completed_row ∷ [] }

completed_found : find_run completed_tables "r1" ≡ some completed_row
unfolding find_run ◌=s=◌
completed_found = refl

terminal_is_final_example :
    transition "r1" failed (plain "") 2 completed_tables
    ≡ (err invalid_transition, completed_tables)
terminal_is_final_example =
    terminal_is_final "r1" failed (plain "") 2 completed_tables completed_row completed_found refl

create_within_budget_example :
    committed
      (final (create "r2" rename_change none small_usd (some small_usd) 3 new_tables)).llm_usage
    ≤ max (committed new_tables.llm_usage) (usd_to_micros small_usd)
create_within_budget_example =
    create_within_budget "r2" rename_change none small_usd small_usd 3 new_tables

-- an amount of 30 digits, whose product is rounded to 28 before it is rounded up
long_amount : usd_to_micros (record { coefficient = 10 ^ 29 + 1; places = 29 }) ≡ 1_000_000
unfolding usd_to_micros in_context excess_digits half_even
long_amount = refl

usd_to_micros_rounds_up_example :
    (small_usd.coefficient * 1_000_000 ≤ usd_to_micros small_usd * 10 ^ small_usd.places)
    × (usd_to_micros small_usd * 10 ^ small_usd.places
        < small_usd.coefficient * 1_000_000 + 10 ^ small_usd.places)
usd_to_micros_rounds_up_example = usd_to_micros_rounds_up small_usd (omega arith)

abbrev saved_entry : PublicationLedgerEntry
saved_entry = record entry { updated_at = 9 }

abbrev saved_tables : RunStore
saved_tables = record empty { publication_ledger = ledger_row saved_entry ∷ [] }

save_succeeds : save_publication entry 9 empty ≡ (ok saved_entry, saved_tables)
unfolding save_publication find_publication upsert
save_succeeds = refl

save_then_get_example : get_publication "key" saved_tables ≡ some saved_entry
save_then_get_example = save_then_get entry saved_entry 9 empty saved_tables save_succeeds

saved_found : find_publication saved_tables "key" ≡ some (ledger_row saved_entry)
unfolding find_publication ◌=s=◌
saved_found = refl

abbrev other_entry : PublicationLedgerEntry
other_entry = record entry { artifact_hash = "bb" }

ledger_binding_example :
    Keeps
      (ledger_row saved_entry)
      (find_publication (run (save_publication_call other_entry 11) saved_tables) "key")
ledger_binding_example =
    ledger_binding (save_publication_call other_entry 11) saved_tables "key"
      (ledger_row saved_entry) saved_found

abbrev ledger_tables : RunStore
ledger_tables = run (save_publication_call entry 9) empty

ledger_found : find_publication ledger_tables "key" ≡ some (ledger_row saved_entry)
unfolding run save_publication find_publication upsert ◌=s=◌
ledger_found = refl

ledger_entries_match_example :
    ((ledger_row saved_entry).entry.artifact_hash ≡ (ledger_row saved_entry).artifact_hash)
    × ((ledger_row saved_entry).entry.idempotency_key ≡ "key")
ledger_entries_match_example =
    ledger_entries_match ledger_tables "key" (ledger_row saved_entry)
      (after_call at_start (save_publication_call entry 9)) ledger_found

abbrev second_row : RunRow
second_row = new_run "r2" rename_change none 3

second_created :
    create "r2" rename_change none small_usd none 3 new_tables
    ≡ (ok second_row, final (create "r2" rename_change none small_usd none 3 new_tables))
unfolding run create create_run insert_run insert_into_runs insert_into_events insert_into_usage
    usd_to_micros in_context excess_digits half_even ◌=s=◌
second_created = refl

create_inserts_example :
    (find_run new_tables "r2" ≡ none)
    × (second_row ≡ second_row)
    × (find_run (final (create "r2" rename_change none small_usd none 3 new_tables)) "r2"
        ≡ some second_row)
    × (events_of (final (create "r2" rename_change none small_usd none 3 new_tables)) "r2"
        ≡ created_event "r2" 3 ∷ [])
create_inserts_example =
    create_inserts "r2" rename_change none small_usd none 3 new_tables
      (final (create "r2" rename_change none small_usd none 3 new_tables)) second_row
      new-IsReachable second_created

over_budget_refused :
    create "r2" rename_change none small_usd (some zero_usd) 3 new_tables
    ≡ (err budget_exceeded, new_tables)
unfolding run create create_run insert_run insert_into_runs insert_into_events insert_into_usage
    usd_to_micros in_context excess_digits half_even committed ◌=s=◌
over_budget_refused = refl

create_atomic_example : new_tables ≡ new_tables
create_atomic_example =
    create_atomic "r2" rename_change none small_usd (some zero_usd) 3 new_tables new_tables
      budget_exceeded over_budget_refused
