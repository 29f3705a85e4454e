-- ===== src/Orchestrator/Whole.antt =====
-- The analysis of a new run, from its creation on.
use changesafe.Prelude.{◌≡◌, refl, some, is_some, arith, String, ok}
use changesafe.Store.States.{created, loading_context, allowed}
use changesafe.Store.Tables.{RunRow, RunStore, find_run}
use changesafe.Store.Scrub.{run_from_row}
use changesafe.Store.Runs.{get, plain, transition}
use changesafe.Orchestrator.Ports.{Orchestrator}
use changesafe.Orchestrator.Analyze.{analyze, found, analyze_from_loading}
use changesafe.Orchestrator.Rules.{bind-ok, transition-At}
use changesafe.Orchestrator.Outcome.{IsSettled, analysis_settles}

found-get :
    (id : String) (s : RunStore) (r : RunRow)
    → find_run s id ≡ some r
    → found (get id s) s ≡ (ok (run_from_row r), s)
unfolding get
found-get id s r h = ground (arith, h)

-- `analyze` of a run whose row is there and in `created` never raises, and ends as
-- `_analyze_from_loading` does: failed, awaiting approval with an eligible analysis that meets the
-- policy, or, only if a snapshot port is configured, waiting for the snapshot.
pub analyze_settles :
    (o : Orchestrator) (r : RunRow) (s : RunStore)
    → find_run s r.run_id ≡ some r
    → r.state ≡ created
    → IsSettled o r.run_id r.request (is_some o.snapshot_context_port) (analyze o r.run_id s)
unfolding analyze allowed run_from_row
analyze_settles o r s there new =
    let offer = is_some o.snapshot_context_port in
    let (row, t, h, st, q, kept, qs, r', e) =
      transition-At r.run_id created loading_context (plain "Reading the existing data contract")
        (o.moment loading_context) s (r, there, new) refl in
    bind-ok (IsSettled o r.run_id r.request offer) (λ s'. found (get r.run_id s') s') _ s s
      (run_from_row r) (found-get r.run_id s r there)
      (bind-ok (IsSettled o r.run_id r.request offer)
        (transition r.run_id loading_context (plain "Reading the existing data contract")
          (o.moment loading_context))
        (λ x. analyze_from_loading o (run_from_row r) o.context_port offer) s t row h
        (analysis_settles o (run_from_row r) o.context_port offer t (q, kept, qs)))
