-- ===== src/Orchestrator/Ends.antt =====
-- How each stage of an analysis ends.
use changesafe.Prelude.{
  ◌≡◌, refl, sym, true, Option, none, some, String, Result, ok, err, err-ne-ok,
}
use changesafe.Exec.{Exec, continue, ◌>>=◌, lift}
use changesafe.Domain.Change.{ChangeRequest}
use changesafe.Domain.Context.{ContextBundle}
use changesafe.Domain.Warehouse.{WarehouseValidationResult}
use changesafe.Domain.Analysis.{RiskResult, ArtifactBundle}
use changesafe.Risk.Score.{RiskError, score_change}
use changesafe.Store.States.{
  RunState, loading_context, scoring_risk, generating, validating, validating_warehouse,
  awaiting_approval, failed, allowed,
}
use changesafe.Store.Tables.{RunRow, RunStore}
use changesafe.Store.Runs.{plain}
use changesafe.Orchestrator.Ports.{
  Orchestrator, ContextPort, Failure, context_load_failed, analysis_failed, WarehouseOutcome,
}
use changesafe.Orchestrator.Warehouse.{not_run_result, validate_warehouse}
use changesafe.Orchestrator.Stages.{
  or_fail, of_risk, warehouse_stage, validate_from, generate_from, analyze_body,
}
use changesafe.Orchestrator.Rules.{At, bind-lift, bind-move, bind-usage}
use changesafe.Orchestrator.Decided.{Ends, decide-Ends}

not_context_load :
    {A : Type 0} → ◌≡◌ {A = Result Failure A} (err analysis_failed) (err context_load_failed) → ⊥
not_context_load h = cc

-- A port that raises ends the block with an exception that is no `ContextLoadError`.
crash-Ends :
    {A : Type 0} (o : Orchestrator) (id : String) (change : ChangeRequest) (state : RunState)
    (t : RunStore) (r : Option A) (e : Failure)
    → or_fail r ≡ err e
    → At id state t
    → allowed state failed ≡ true
    → Ends o id change (err e, t)
unfolding Ends
crash-Ends o id change state t (some a) e h at step = absurd (err-ne-ok (sym h))
crash-Ends o id change state t none context_load_failed h at step = absurd (not_context_load h)
crash-Ends o id change state t none analysis_failed h at step = (state, at, step)

warehouse-Ends :
    (o : Orchestrator) (id : String) (change : ChangeRequest) (context : ContextBundle)
    (unrun : WarehouseValidationResult)
    (port : Option (ChangeRequest → ContextBundle → WarehouseOutcome))
    (f : WarehouseValidationResult → Exec RunStore Failure RunRow) (s : RunStore)
    → At id validating s
    → ((w : WarehouseValidationResult) (state : RunState) (t : RunStore)
        → At id state t
        → allowed state awaiting_approval ≡ true
        → allowed state failed ≡ true
        → Ends o id change (f w t))
    → Ends o id change ((warehouse_stage o id change context unrun port >>= f) s)
unfolding allowed
warehouse-Ends o id change context unrun none f s at next = next unrun validating s at refl refl
warehouse-Ends o id change context unrun (some port) f s at next =
    let r = validate_warehouse o port change context in
    bind-move (λ x. Ends o id change (let (r, t) = x in continue r f t)) o id validating
      validating_warehouse (plain "Validating aggregate warehouse evidence")
      (λ row. lift (or_fail (validate_warehouse o port change context))) s at refl
      (λ row t at'.
        bind-lift (Ends o id change) (or_fail r) f t
          (λ w. next w validating_warehouse t at' refl refl)
          (λ e h. crash-Ends o id change validating_warehouse t r e h at' refl))

validate_from-Ends :
    (o : Orchestrator) (id : String) (change : ChangeRequest) (context : ContextBundle)
    (risk : RiskResult) (artifacts : ArtifactBundle) (s : RunStore)
    → At id generating s
    → Ends o id change (validate_from o id change context risk artifacts s)
unfolding validate_from allowed Ends
validate_from-Ends o id change context risk artifacts s at =
    bind-move (Ends o id change) o id generating validating _ _ s at refl (λ row t at'.
      bind-lift (Ends o id change) (or_fail (o.verify_artifacts artifacts change context)) _ t
        (λ validation.
          bind-lift (Ends o id change) (or_fail (not_run_result o change)) _ t
            (λ unrun. warehouse-Ends o id change context unrun _ _ t at' (λ w state t' at''.
              decide-Ends o id change context risk artifacts validation w state t' at''))
            (λ e h. crash-Ends o id change validating t (not_run_result o change) e h at' refl))
        (λ e h.
          crash-Ends o id change validating t (o.verify_artifacts artifacts change context) e h at'
            refl))

generate_from-Ends :
    (o : Orchestrator) (id : String) (change : ChangeRequest) (context : ContextBundle)
    (risk : RiskResult) (s : RunStore)
    → At id scoring_risk s
    → Ends o id change (generate_from o id change context risk s)
unfolding generate_from allowed
generate_from-Ends o id change context risk s at =
    bind-move (Ends o id change) o id scoring_risk generating _ _ s at refl (λ row t at'.
      bind-lift (Ends o id change) (or_fail (o.generate_with_usage change context risk)) _ t
        (λ generation.
          bind-usage (Ends o id change) o id generating generation.usage
            generation.release_reservation _ t at'
            (λ t' at''. validate_from-Ends o id change context risk generation.artifacts t' at''))
        (λ e h.
          crash-Ends o id change generating t (o.generate_with_usage change context risk) e h at'
            refl))

risk-Ends :
    (o : Orchestrator) (id : String) (change : ChangeRequest) (state : RunState) (t : RunStore)
    (r : Result RiskError RiskResult) (e : Failure)
    → of_risk r ≡ err e
    → At id state t
    → allowed state failed ≡ true
    → Ends o id change (err e, t)
unfolding Ends
risk-Ends o id change state t (ok a) e h at step = absurd (err-ne-ok (sym h))
risk-Ends o id change state t (err d) context_load_failed h at step = absurd (not_context_load h)
risk-Ends o id change state t (err d) analysis_failed h at step = (state, at, step)

load-Ends :
    (o : Orchestrator) (id : String) (change : ChangeRequest) (t : RunStore) (e : Failure)
    → At id loading_context t
    → Ends o id change (err e, t)
unfolding Ends allowed
load-Ends o id change t context_load_failed at = at
load-Ends o id change t analysis_failed at = (loading_context, at, refl)

pub analyze_body-Ends :
    (o : Orchestrator) (run : RunRow) (port : ContextPort) (s : RunStore)
    → At run.run_id loading_context s
    → Ends o run.run_id run.request (analyze_body o run port s)
unfolding analyze_body allowed
analyze_body-Ends o run port s at =
    bind-lift (Ends o run.run_id run.request) (port run.request) _ s
      (λ context.
        bind-move (Ends o run.run_id run.request) o run.run_id loading_context scoring_risk _ _ s at
          refl
          (λ row t at'.
            bind-lift (Ends o run.run_id run.request) (of_risk (score_change run.request context)) _
              t (λ risk. generate_from-Ends o run.run_id run.request context risk t at')
              (λ e h.
                risk-Ends o run.run_id run.request scoring_risk t (score_change run.request context)
                  e h at' refl)))
      (λ e h. load-Ends o run.run_id run.request s e at)
