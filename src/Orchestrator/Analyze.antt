-- ===== src/Orchestrator/Analyze.antt =====
-- `start`, `analyze`, `continue_with_snapshot` and `_analyze_from_loading`.
use changesafe.Prelude.{
  Bool, true, false, Option, none, some, String, is_some, Result, ok, err, if◌then◌else◌,
}
use changesafe.Exec.{Exec, pure, raise, ◌>>=◌, ◌>>◌}
use changesafe.Domain.Change.{ChangeRequest}
use changesafe.Domain.Analysis.{PublicError}
use changesafe.Store.States.{RunState, loading_context, context_fallback_required, failed}
use changesafe.Store.Tables.{RunRow, RunStore, StoreError, unknown_run}
use changesafe.Store.Runs.{Update, plain, get, transition, create}
use changesafe.Orchestrator.Ports.{
  Orchestrator, ContextPort, Failure, context_load_failed, analysis_failed,
}
use changesafe.Orchestrator.Stages.{analyze_body}

abbrev pub failure_update : String → PublicError → Update
failure_update message error = record (plain message) { error = some error }

-- the `except` clauses
unfoldable pub handle : Orchestrator → String → Bool → Failure → Exec RunStore StoreError RunRow
handle o id true context_load_failed =
    transition id context_fallback_required
      (failure_update "Live context unavailable; confirmation required" (record {
        code = "LIVE_CONTEXT_UNAVAILABLE";
        message = "Live metadata context is unavailable. Snapshot replay requires confirmation.";
        retryable = true;
      }))
      (o.moment context_fallback_required)
handle o id false context_load_failed =
    transition id failed
      (failure_update "Metadata context could not be loaded" (record {
        code = "CONTEXT_LOAD_FAILED";
        message = "Unable to load metadata context.";
        retryable = true;
      }))
      (o.moment failed)
handle o id offer_snapshot analysis_failed =
    transition id failed
      (failure_update "Analysis failed safely" (record {
        code = "ANALYSIS_FAILED";
        message = "The change analysis could not be completed.";
        retryable = true;
      }))
      (o.moment failed)

abbrev pub or_handle :
    Orchestrator → String → Bool → Result Failure RunRow → Exec RunStore StoreError RunRow
or_handle o id offer_snapshot (ok row) s = (ok row, s)
or_handle o id offer_snapshot (err e) s = handle o id offer_snapshot e s

unfoldable pub analyze_from_loading :
    Orchestrator → RunRow → ContextPort → Bool → Exec RunStore StoreError RunRow
analyze_from_loading o run port offer_snapshot s =
    let (r, t) = analyze_body o run port s in or_handle o run.run_id offer_snapshot r t

-- `run is None` raises `KeyError`
abbrev pub found : {A : Type 0} → Option A → Exec RunStore StoreError A
found none = raise unknown_run
found (some a) = pure a

unfoldable pub analyze : Orchestrator → String → Exec RunStore StoreError RunRow
analyze o id = do
  run ← λ s. found (get id s) s
  transition id loading_context (plain "Reading the existing data contract")
      (o.moment loading_context)
  analyze_from_loading o run o.context_port (is_some o.snapshot_context_port)

-- `start`, less the task that runs `analyze`
unfoldable pub start :
    Orchestrator → String → ChangeRequest → Option String → Exec RunStore StoreError RunRow
start o id change session = create id change session o.llm_reservation_usd o.llm_budget_usd o.now

-- the `ValueError`s of `continue_with_snapshot`, and the errors of the store
pub data FallbackError : Type 0 where
  not_configured not_waiting : FallbackError
  of_store : StoreError → FallbackError

abbrev pub is_waiting : RunState → Bool
is_waiting context_fallback_required = true
is_waiting _ = false

abbrev pub store_error : {A : Type 0} → Result StoreError A → Result FallbackError A
store_error (ok a) = ok a
store_error (err e) = err (of_store e)

unfoldable pub continue_waiting : Orchestrator → String → Exec RunStore FallbackError RunRow
continue_waiting o id s =
    let (r, t) =
      transition id loading_context
        (record (plain "Loading confirmed DataHub snapshot") { clear_error = true })
        (o.moment loading_context) s in
    (store_error r, t)

unfoldable pub continue_found :
    Orchestrator → String → Option RunRow → Exec RunStore FallbackError RunRow
unfolding continue_waiting
continue_found o id none = raise (of_store unknown_run)
continue_found o id (some run) =
    if is_waiting run.state then continue_waiting o id else raise not_waiting

-- `continue_with_snapshot`, less the task that it starts, which is `analyze_from_loading` of the row it
-- returns with the snapshot port
unfoldable pub continue_with_snapshot : Orchestrator → String → Exec RunStore FallbackError RunRow
unfolding continue_found
continue_with_snapshot o id s = elim o.snapshot_context_port [
  | none ↦ (err not_configured, s)
  | some port ↦ continue_found o id (get id s) s
]
