-- ===== src/Orchestrator/Fallback.antt =====
-- The confirmed fallback to a snapshot.
use changesafe.Prelude.{◌≡◌, refl, ap, ◌∙◌, true, false, none, some, String, Result, ok, err, arith}
use changesafe.Store.States.{loading_context, context_fallback_required, allowed}
use changesafe.Store.Tables.{RunRow, RunStore, StoreError, find_run}
use changesafe.Store.Scrub.{run_from_row}
use changesafe.Store.Runs.{Update, advance, updated_run, get, plain}
use changesafe.Store.Behaviour.{transition-ok}
use changesafe.Store.Advance.{find_run-advance}
use changesafe.Orchestrator.Ports.{Orchestrator, ContextPort}
use changesafe.Orchestrator.Analyze.{
  continue_with_snapshot, continue_found, continue_waiting, not_configured, store_error,
  analyze_from_loading,
}
use changesafe.Orchestrator.Outcome.{IsSettled, analysis_settles}

-- the update of a run whose snapshot is confirmed
abbrev pub confirmed : Update
confirmed = record (plain "Loading confirmed DataHub snapshot") { clear_error = true }

continue_waiting-ok :
    (o : Orchestrator) (r : RunRow) (s : RunStore)
    → find_run s r.run_id ≡ some r
    → r.state ≡ context_fallback_required
    → continue_waiting o r.run_id s ≡ (
      ok (run_from_row (updated_run loading_context confirmed (o.moment loading_context) r)),
      advance r.run_id loading_context confirmed (o.moment loading_context) s,
    )
unfolding continue_waiting allowed
continue_waiting-ok o r s found state =
    ap (λ (x : Result StoreError RunRow × RunStore). (store_error x.0, x.1))
      (transition-ok r.run_id loading_context confirmed (o.moment loading_context) s r found
        (ap (λ st. allowed st loading_context) state))

continue_found-ok :
    (o : Orchestrator) (r : RunRow) (s : RunStore)
    → r.state ≡ context_fallback_required
    → continue_found o r.run_id (some (run_from_row r)) s ≡ continue_waiting o r.run_id s
unfolding continue_found run_from_row
continue_found-ok o r s state = ground (arith, state)

get-found :
    (id : String) (s : RunStore) (r : RunRow)
    → find_run s id ≡ some r
    → get id s ≡ some (run_from_row r)
unfolding get
get-found id s r h = ground (arith, h)

continue_configured :
    (o : Orchestrator) (port : ContextPort) (id : String) (s : RunStore)
    → o.snapshot_context_port ≡ some port
    → continue_with_snapshot o id s ≡ continue_found o id (get id s) s
unfolding continue_with_snapshot
continue_configured o port id s h =
    ap
      (λ p. elim p [
        | none ↦ (err not_configured, s)
        | some port' ↦ continue_found o id (get id s) s
      ])
      h

-- Where a snapshot port is configured and the run waits for the snapshot, `continue_with_snapshot`
-- returns its row in `loading_context` without an error, and the analysis that it starts with that row
-- and port settles: failed, or awaiting approval with an eligible analysis that meets the policy.
pub fallback_settles :
    (o : Orchestrator) (port : ContextPort) (r : RunRow) (s : RunStore)
    → o.snapshot_context_port ≡ some port
    → find_run s r.run_id ≡ some r
    → r.state ≡ context_fallback_required
    → (row : RunRow) × (t : RunStore) × (continue_with_snapshot o r.run_id s ≡ (ok row, t))
      × (row.state ≡ loading_context)
      × (row.error ≡ none)
      × IsSettled o r.run_id r.request false (analyze_from_loading o row port false t)
unfolding run_from_row updated_run
fallback_settles o port r s configured found state =
    let row = updated_run loading_context confirmed (o.moment loading_context) r in
    let t = advance r.run_id loading_context confirmed (o.moment loading_context) s in
    (
      run_from_row row,
      t,
      continue_configured o port r.run_id s configured
          ∙ ap (λ x. continue_found o r.run_id x s) (get-found r.run_id s r found)
          ∙ continue_found-ok o r s state
          ∙ continue_waiting-ok o r s found state,
      refl,
      refl,
      analysis_settles o (run_from_row row) port false t (
        row,
        find_run-advance r.run_id loading_context confirmed (o.moment loading_context) s r found,
        refl,
      ),
    )
