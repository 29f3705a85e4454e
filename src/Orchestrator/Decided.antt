-- ===== src/Orchestrator/Decided.antt =====
-- The end of the block: with blockers the run fails, without it awaits approval and its analysis meets
-- the policy.
use changesafe.Prelude.{
  ◌≡◌, refl, sym, ap, ◌∙◌, subst, ◌⊎◌, inl, inr, true, ◌&&◌, is_empty, some, List, [], ◌∷◌, String,
  Result, ok, err, arith,
}
use changesafe.Domain.Change.{ChangeRequest}
use changesafe.Domain.Context.{ContextBundle}
use changesafe.Domain.Warehouse.{
  WarehouseValidationResult, passed, warehouse_passed_evidence_is_complete,
}
use changesafe.Domain.Analysis.{
  RiskResult, ArtifactBundle, ValidationReport, AnalysisResult, ApprovalBlocker,
  normalize_incomplete_warehouse_evidence,
}
use changesafe.Policy.Evaluate.{evaluate_approval_policy}
use changesafe.Policy.Approval.{IsApprovable, evaluate_approval_policy_iff}
use changesafe.Impact.Classify.{classify_impacts}
use changesafe.Store.States.{RunState, loading_context, awaiting_approval, failed, allowed}
use changesafe.Store.Tables.{RunRow, RunStore, StoreError, find_run}
use changesafe.Store.Runs.{or_else, Update, plain, updated_run}
use changesafe.Orchestrator.Ports.{Orchestrator, Failure, context_load_failed, analysis_failed}
use changesafe.Orchestrator.Stages.{
  from_store_result, move, settings_of, decide, decide_with, blocked_update,
}
use changesafe.Orchestrator.Rules.{At, transition-At}

-- the analysis in the row of the run is eligible and meets the approval policy
abbrev pub IsEarned : Orchestrator → String → ChangeRequest → RunStore → Type 0
IsEarned o id change t =
    (q : RunRow) × (a : AnalysisResult) × (find_run t id ≡ some q)
    × (q.state ≡ awaiting_approval)
    × (q.analysis ≡ some a)
    × (a.publication_eligible ≡ true)
    × IsApprovable (settings_of o change) change a.context a.validation a.warehouse_validation
        o.policy_now

-- a run that ended in a decision
abbrev pub IsDecided : Orchestrator → String → ChangeRequest → RunRow → RunStore → Type 0
IsDecided o id change row t =
    ((row.state ≡ failed) × At id failed t)
    ⊎ ((row.state ≡ awaiting_approval) × IsEarned o id change t)

-- how the block of the `try` ends
unfoldable pub Ends :
    Orchestrator → String → ChangeRequest → Result Failure RunRow × RunStore → Type 0
Ends o id change (ok row, t) = IsDecided o id change row t
Ends o id change (err context_load_failed, t) = At id loading_context t
Ends o id change (err analysis_failed, t) =
    (state : RunState) × At id state t × (allowed state failed ≡ true)

normalize_complete :
    (a : AnalysisResult)
    → (a.warehouse_validation.status ≡ passed
        → warehouse_passed_evidence_is_complete a.warehouse_validation ≡ true)
    → normalize_incomplete_warehouse_evidence a ≡ a
unfolding normalize_incomplete_warehouse_evidence
normalize_complete a complete = ground (arith)

-- the analysis that `decide` makes of a list of blockers
abbrev analysis_of :
    ChangeRequest
    → ContextBundle
    → RiskResult
    → ArtifactBundle
    → ValidationReport
    → WarehouseValidationResult
    → List ApprovalBlocker
    → AnalysisResult
analysis_of change context risk artifacts validation warehouse blockers = record {
  context = context;
  risk = risk;
  artifacts = artifacts;
  validation = validation;
  publication_eligible = validation.is_passed && is_empty blockers;
  impacts = classify_impacts change context;
  warehouse_validation = warehouse;
  approval_blockers = blockers;
}

awaits-Ends :
    (o : Orchestrator) (id : String) (change : ChangeRequest) (state : RunState)
    (a : AnalysisResult) (u : Update) (s : RunStore)
    → u.analysis ≡ some a
    → At id state s
    → allowed state awaiting_approval ≡ true
    → a.publication_eligible ≡ true
    → IsApprovable
        (settings_of o change)
        change
        a.context
        a.validation
        a.warehouse_validation
        o.policy_now
    → Ends o id change (move o id awaiting_approval u s)
unfolding Ends updated_run
awaits-Ends o id change state a u s ua at step eligible earned =
    let (row, t, h, st, q, found, qs, r, e) =
      transition-At id state awaiting_approval u (o.moment awaiting_approval) s at step in
    subst
      (λ (x : Result StoreError RunRow × RunStore). Ends o id change (from_store_result x.0, x.1))
      (sym h)
      (inr (
        st,
        (
          q,
          a,
          found,
          qs,
          ap (λ (x : RunRow). x.analysis) e ∙ ap (λ x. or_else x r.analysis) ua,
          eligible,
          earned,
        ),
      ))

fails-Ends :
    (o : Orchestrator) (id : String) (change : ChangeRequest) (state : RunState) (u : Update)
    (s : RunStore)
    → At id state s
    → allowed state failed ≡ true
    → Ends o id change (move o id failed u s)
unfolding Ends
fails-Ends o id change state u s at step =
    let (row, t, h, st, q, found, qs, r, e) =
      transition-At id state failed u (o.moment failed) s at step in
    subst
      (λ (x : Result StoreError RunRow × RunStore). Ends o id change (from_store_result x.0, x.1))
      (sym h) (inl (st, (q, found, qs)))

decide_with-Ends :
    (o : Orchestrator) (id : String) (change : ChangeRequest) (context : ContextBundle)
    (risk : RiskResult) (artifacts : ArtifactBundle) (validation : ValidationReport)
    (warehouse : WarehouseValidationResult) (blockers : List ApprovalBlocker) (state : RunState)
    (s : RunStore)
    → evaluate_approval_policy
        (settings_of o change)
        change
        context
        validation
        warehouse
        o.policy_now
      ≡ blockers
    → At id state s
    → allowed state awaiting_approval ≡ true
    → allowed state failed ≡ true
    → Ends o id change (
        decide_with o id
          (normalize_incomplete_warehouse_evidence
            (analysis_of change context risk artifacts validation warehouse blockers))
          blockers
          s)
decide_with-Ends o id change context risk artifacts validation warehouse [] state s h at yes_step
      no_step =
    let earned =
      (evaluate_approval_policy_iff (settings_of o change) change context validation warehouse
          o.policy_now).0
        h in
    let a = analysis_of change context risk artifacts validation warehouse [] in
    let same = normalize_complete a (λ p. (earned.current p).complete) in
    subst (λ x. Ends o id change (decide_with o id x [] s)) (sym same)
      (awaits-Ends o id change state a
        (record (plain "Waiting for the accountable owner") { analysis = some a }) s refl at
        yes_step (ap (λ b. b && true) earned.verified) earned)
decide_with-Ends o id change context risk artifacts validation warehouse (b ∷ bs) state s h at
      yes_step no_step =
    fails-Ends o id change state
      (blocked_update
        (normalize_incomplete_warehouse_evidence
          (analysis_of change context risk artifacts validation warehouse (b ∷ bs)))
        b)
      s at no_step

pub decide-Ends :
    (o : Orchestrator) (id : String) (change : ChangeRequest) (context : ContextBundle)
    (risk : RiskResult) (artifacts : ArtifactBundle) (validation : ValidationReport)
    (warehouse : WarehouseValidationResult) (state : RunState) (s : RunStore)
    → At id state s
    → allowed state awaiting_approval ≡ true
    → allowed state failed ≡ true
    → Ends o id change (decide o id change context risk artifacts validation warehouse s)
unfolding decide
decide-Ends o id change context risk artifacts validation warehouse state s at yes_step no_step =
    decide_with-Ends o id change context risk artifacts validation warehouse _ state s refl at
      yes_step no_step
