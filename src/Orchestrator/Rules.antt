-- ===== src/Orchestrator/Rules.antt =====
-- Rules for the stages of an analysis: where the run stands, and what a stage makes of it.
use changesafe.Prelude.{
  ◌≡◌, refl, find?, sym, ap, ◌∙◌, subst, ℕ, Bool, true, false, Option, none, some, String, Result,
  ok, err,
}
use changesafe.Exec.{final, Exec, lift, continue, ◌>>=◌}
use changesafe.Domain.Publication.{LlmUsage}
use changesafe.Store.States.{RunState, allowed}
use changesafe.Store.Tables.{RunRow, RunStore, StoreError, find_run, has_id}
use changesafe.Store.Scrub.{run_from_row}
use changesafe.Store.Runs.{Update, updated_run, advance, transition}
use changesafe.Store.Usage.{record_llm_usage, release_llm_reservation}
use changesafe.Store.Advance.{find_run-advance}
use changesafe.Store.Behaviour.{transition-ok}
use changesafe.Orchestrator.Ports.{Orchestrator, Failure}
use changesafe.Orchestrator.Stages.{from_store, from_store_result, move, usage_stage}

-- the tables hold a row of the run, and it is in the state
abbrev pub At : String → RunState → RunStore → Type 0
At id state s = (r : RunRow) × (find_run s id ≡ some r) × (r.state ≡ state)

module _ {E A B : Type 0} where
  -- A chain whose first action succeeds.
  pub bind-ok :
      (P : Result E B × RunStore → Type 0) (m : Exec RunStore E A) (f : A → Exec RunStore E B)
      (s t : RunStore) (a : A)
      → m s ≡ (ok a, t)
      → P (f a t)
      → P ((m >>= f) s)
  bind-ok P m f s t a h p =
      subst (λ (x : Result E A × RunStore). P (let (r, s') = x in continue r f s')) (sym h) p

  -- A chain that starts with a value or an error.
  pub bind-lift :
      (P : Result E B × RunStore → Type 0) (r : Result E A) (f : A → Exec RunStore E B)
      (s : RunStore)
      → ((a : A) → P (f a s))
      → ((e : E) → r ≡ err e → P (err e, s))
      → P ((lift r >>= f) s)
  bind-lift P (ok a) f s holds fails = holds a
  bind-lift P (err e) f s holds fails = fails e refl

run_from_row-state : (r : RunRow) → (run_from_row r).state ≡ r.state
unfolding run_from_row
run_from_row-state r = refl

-- An allowed transition succeeds.
pub transition-At :
    (id : String) (a b : RunState) (u : Update) (now : ℕ) (s : RunStore)
    → At id a s
    → allowed a b ≡ true
    → (row : RunRow) × (t : RunStore) × (transition id b u now s ≡ (ok row, t))
      × (row.state ≡ b)
      × (q : RunRow) × (find_run t id ≡ some q)
      × (q.state ≡ b)
      × (r : RunRow) × (q ≡ updated_run b u now r)
unfolding updated_run run_from_row
transition-At id a b u now s (r, found, at) step = (
  run_from_row (updated_run b u now r),
  advance id b u now s,
  transition-ok id b u now s r found (ap (λ st. allowed st b) at ∙ step),
  refl,
  updated_run b u now r,
  find_run-advance id b u now s r found,
  refl,
  r,
  refl,
)

-- A chain that starts with an allowed transition.
pub bind-move :
    {B : Type 0} (P : Result Failure B × RunStore → Type 0) (o : Orchestrator) (id : String)
    (a b : RunState) (u : Update) (f : RunRow → Exec RunStore Failure B) (s : RunStore)
    → At id a s
    → allowed a b ≡ true
    → ((row : RunRow) (t : RunStore) → At id b t → P (f row t))
    → P ((move o id b u >>= f) s)
bind-move P o id a b u f s at step next =
    let (row, t, h, st, q, found, qs, r, e) = transition-At id a b u (o.moment b) s at step in
    bind-ok P (move o id b u) f s t row
      (ap (λ (x : Result StoreError RunRow × RunStore). (from_store_result x.0, x.1)) h)
      (next row t (q, found, qs))

-- Recording or releasing the usage leaves the rows of the runs.
usage-runs :
    (o : Orchestrator) (id : String) (u : Option LlmUsage) (release : Bool) (s : RunStore)
    → (t : RunStore) × (usage_stage o id u release s ≡ (ok tt, t)) × (t.runs ≡ s.runs)
unfolding record_llm_usage release_llm_reservation
usage-runs o id (some u) release s = (final (record_llm_usage id u o.now s), refl, refl)
usage-runs o id none true s = (final (release_llm_reservation id o.now s), refl, refl)
usage-runs o id none false s = (s, refl, refl)

-- A chain that starts with recording or releasing the usage.
pub bind-usage :
    {B : Type 0} (P : Result Failure B × RunStore → Type 0) (o : Orchestrator) (id : String)
    (state : RunState) (u : Option LlmUsage) (release : Bool)
    (f : Unit {0} → Exec RunStore Failure B) (s : RunStore)
    → At id state s
    → ((t : RunStore) → At id state t → P (f tt t))
    → P ((from_store (usage_stage o id u release) >>= f) s)
unfolding find_run
bind-usage P o id state u release f s (r, found, at) next =
    let (t, h, runs) = usage-runs o id u release s in
    bind-ok P (from_store (usage_stage o id u release)) f s t tt
      (ap (λ (x : Result StoreError (Unit {0}) × RunStore). (from_store_result x.0, x.1)) h)
      (next t (r, ap (λ rs. find? (has_id id) rs) runs ∙ found, at))
