-- ===== src/Orchestrator/Outcome.antt =====
-- How an analysis ends.
use changesafe.Prelude.{
  ◌≡◌, refl, sym, subst, ◌⊎◌, inl, inr, Bool, true, false, String, Result, ok, err,
}
use changesafe.Domain.Change.{ChangeRequest}
use changesafe.Store.States.{RunState, loading_context, context_fallback_required, failed, allowed}
use changesafe.Store.Tables.{RunRow, RunStore, StoreError}
use changesafe.Store.Runs.{Update, transition}
use changesafe.Orchestrator.Ports.{
  Orchestrator, ContextPort, Failure, context_load_failed, analysis_failed,
}
use changesafe.Orchestrator.Analyze.{handle, or_handle, analyze_from_loading}
use changesafe.Orchestrator.Rules.{At, transition-At}
use changesafe.Orchestrator.Decided.{Ends, IsDecided}
use changesafe.Orchestrator.Ends.{analyze_body-Ends}

-- the run waits for the snapshot to be confirmed
abbrev pub IsFallback : String → Bool → RunRow → RunStore → Type 0
IsFallback id offer_snapshot row t =
    (offer_snapshot ≡ true)
    × (row.state ≡ context_fallback_required)
    × At id context_fallback_required t

-- how an analysis ends: in a decision, or with the offer of the snapshot
unfoldable pub IsSettled :
    Orchestrator → String → ChangeRequest → Bool → Result StoreError RunRow × RunStore → Type 0
IsSettled o id change offer_snapshot (ok row, t) =
    IsDecided o id change row t ⊎ IsFallback id offer_snapshot row t
IsSettled o id change offer_snapshot (err e, t) = ⊥

transition-Settled :
    (o : Orchestrator) (id : String) (change : ChangeRequest) (offer : Bool) (state : RunState)
    (u : Update) (s : RunStore)
    → At id state s
    → allowed state failed ≡ true
    → IsSettled o id change offer (transition id failed u (o.moment failed) s)
unfolding IsSettled
transition-Settled o id change offer state u s at step =
    let (row, t, h, st, q, found, qs, r, e) =
      transition-At id state failed u (o.moment failed) s at step in
    subst (IsSettled o id change offer) (sym h) (inl (inl (st, (q, found, qs))))

offer-Settled :
    (o : Orchestrator) (id : String) (change : ChangeRequest) (u : Update) (s : RunStore)
    → At id loading_context s
    → IsSettled o id change true
        (transition id context_fallback_required u (o.moment context_fallback_required) s)
unfolding IsSettled allowed
offer-Settled o id change u s at =
    let (row, t, h, st, q, found, qs, r, e) =
      transition-At id loading_context context_fallback_required u
        (o.moment context_fallback_required) s at refl in
    subst (IsSettled o id change true) (sym h) (inr (refl, st, (q, found, qs)))

or_handle-Settled :
    (o : Orchestrator) (id : String) (change : ChangeRequest) (offer : Bool)
    (r : Result Failure RunRow) (t : RunStore)
    → Ends o id change (r, t)
    → IsSettled o id change offer (or_handle o id offer r t)
unfolding Ends IsSettled handle allowed
or_handle-Settled o id change offer (ok row) t h = inl h
or_handle-Settled o id change true (err context_load_failed) t h = offer-Settled o id change _ t h
or_handle-Settled o id change false (err context_load_failed) t h =
    transition-Settled o id change false loading_context _ t h refl
or_handle-Settled o id change true (err analysis_failed) t (state, at, step) =
    transition-Settled o id change true state _ t at step
or_handle-Settled o id change false (err analysis_failed) t (state, at, step) =
    transition-Settled o id change false state _ t at step

-- The analysis of a run whose row is in `loading_context` never raises: it returns a row that is failed,
-- or awaits approval, or, only if the snapshot may be offered, waits for the snapshot, and the tables
-- hold the run in that state. If it awaits approval, the row holds an eligible analysis whose context,
-- validation and warehouse evidence meet the approval policy for the request.
pub analysis_settles :
    (o : Orchestrator) (run : RunRow) (port : ContextPort) (offer_snapshot : Bool) (s : RunStore)
    → At run.run_id loading_context s
    → IsSettled o run.run_id run.request offer_snapshot
        (analyze_from_loading o run port offer_snapshot s)
unfolding analyze_from_loading
analysis_settles o run port offer s at =
    or_handle-Settled o run.run_id run.request offer _ _ (analyze_body-Ends o run port s at)
