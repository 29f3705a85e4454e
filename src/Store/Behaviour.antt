-- ===== src/Store/Behaviour.antt =====
-- `create` and `transition` on every branch.
use changesafe.Prelude.{
  ◌≡◌, refl, sym, ap, ◌∙◌, ℕ, suc, Bool, true, false, none, some, [], ◌∷◌, ◌++◌, String, ◌=s=◌,
  length, Result, ok, err, err-ne-ok, Bool-cases, Option-cases, ◌⊎◌, inl, inr, arith,
}
use changesafe.Exec.{final}
use changesafe.Store.States.{RunState, completed, failed, allowed}
use changesafe.Store.Tables.{
  RunRow, RunStore, StoreError, unknown_run, invalid_transition, find_run, events_of,
}
use changesafe.Store.Scrub.{run_from_row}
use changesafe.Store.Runs.{
  Update, updated_run, advance, get, transition, transition_from, transition_event, returned,
}
use changesafe.Store.Trail.{max_sequence-trail}
use changesafe.Store.Steps.{IsReachable}
use changesafe.Store.Advance.{
  find_run-advance, find_run-advance_other, events_of-advance, events_of-advance_other,
}
use changesafe.Store.History.{trail_of}

transition_from-ok :
    (id : String) (state : RunState) (u : Update) (now : ℕ) (s : RunStore) (r : RunRow)
    → allowed r.state state ≡ true
    → transition_from (some r) id state u now s
      ≡ (returned (get id (advance id state u now s)), advance id state u now s)
unfolding transition_from
transition_from-ok id state u now s r step = ground arith

returned-get :
    (id : String) (s : RunStore) (r : RunRow)
    → find_run s id ≡ some r
    → returned (get id s) ≡ ok (run_from_row r)
unfolding get
returned-get id s r found = ground arith

pub transition-ok :
    (id : String) (state : RunState) (u : Update) (now : ℕ) (s : RunStore) (r : RunRow)
    → find_run s id ≡ some r
    → allowed r.state state ≡ true
    → transition id state u now s
      ≡ (ok (run_from_row (updated_run state u now r)), advance id state u now s)
unfolding transition
transition-ok id state u now s r found step =
    ap (λ o. transition_from o id state u now s) found
    ∙ transition_from-ok id state u now s r step
    ∙ ap (λ x. (x, advance id state u now s))
        (returned-get id (advance id state u now s) (updated_run state u now r)
          (find_run-advance id state u now s r found))

different :
    (e : StoreError) (r : RunRow) (s t : RunStore)
    → ◌≡◌ {A = Result StoreError RunRow × RunStore} (err e, s) (ok r, t)
    → ⊥
different e r s t h = err-ne-ok (ap (λ (x : Result StoreError RunRow × RunStore). x.0) h)

abbrev pub IsRefused : String → RunState → Update → ℕ → RunStore → Type 0
IsRefused id state u now s = (e : StoreError) × (transition id state u now s ≡ (err e, s))

transition_from-refused :
    (id : String) (state : RunState) (u : Update) (now : ℕ) (s : RunStore) (r : RunRow)
    → allowed r.state state ≡ false
    → transition_from (some r) id state u now s ≡ (err invalid_transition, s)
unfolding transition_from
transition_from-refused id state u now s r h = ground arith

transition_from-unknown :
    (id : String) (state : RunState) (u : Update) (now : ℕ) (s : RunStore)
    → transition_from none id state u now s ≡ (err unknown_run, s)
unfolding transition_from
transition_from-unknown id state u now s = refl

-- A transition of a run that is there fails with `invalid_transition` and leaves the tables, when the
-- table of transitions does not allow it.
pub transition_refuses :
    (id : String) (state : RunState) (u : Update) (now : ℕ) (s : RunStore) (r : RunRow)
    → find_run s id ≡ some r
    → allowed r.state state ≡ false
    → transition id state u now s ≡ (err invalid_transition, s)
unfolding transition
transition_refuses id state u now s r found h =
    ap (λ o. transition_from o id state u now s) found
    ∙ transition_from-refused id state u now s r h

pub transition-cases :
    (id : String) (state : RunState) (u : Update) (now : ℕ) (s : RunStore)
    → IsRefused id state u now s
      ⊎ ((r : RunRow) × (find_run s id ≡ some r) × (allowed r.state state ≡ true))
unfolding transition
transition-cases id state u now s = elim (Option-cases (find_run s id)) [
  | inl missing ↦ inl (
    unknown_run,
    ap (λ o. transition_from o id state u now s) missing ∙ transition_from-unknown id state u now s,
  )
  | inr (r, found) ↦ elim (Bool-cases (allowed r.state state)) [
    | inl step ↦ inr (r, found, step)
    | inr h ↦ inl (invalid_transition, transition_refuses id state u now s r found h)
  ]
]

-- A transition that raises leaves the tables as they were.
pub transition_atomic :
    (id : String) (state : RunState) (u : Update) (now : ℕ) (s t : RunStore) (e : StoreError)
    → transition id state u now s ≡ (err e, t)
    → t ≡ s
transition_atomic id state u now s t e h = elim (transition-cases id state u now s) [
  | inl (e', h') ↦ ap final (sym h ∙ h')
  | inr (r, found, step) ↦
      absurd (different e _ t _ (sym h ∙ transition-ok id state u now s r found step))
]

-- Whatever a transition of one run does, the row and the events of any other run stay as they are.
pub transition_keeps_others :
    (id other : String) (state : RunState) (u : Update) (now : ℕ) (s : RunStore)
    → (other =s= id) ≡ false
    → let t = final (transition id state u now s) in
      (find_run t other ≡ find_run s other) × (events_of t other ≡ events_of s other)
transition_keeps_others id other state u now s differs = elim (transition-cases id state u now s) [
  | inl (e, h) ↦ (ap (λ x. find_run (final x) other) h, ap (λ x. events_of (final x) other) h)
  | inr (r, found, step) ↦
      let whole = transition-ok id state u now s r found step in
      (
        ap (λ x. find_run (final x) other) whole
            ∙ find_run-advance_other id other state u now s differs,
        ap (λ x. events_of (final x) other) whole
            ∙ events_of-advance_other id other state u now s differs,
      )
]

-- the states that nothing leads out of
abbrev pub is_terminal : RunState → Bool
is_terminal completed = true
is_terminal failed = true
is_terminal _ = false

terminal-allowed : (a b : RunState) → is_terminal a ≡ true → allowed a b ≡ false
unfolding allowed
terminal-allowed a b h = ground arith

-- Every transition of a run that is completed or failed is refused and leaves the tables.
pub terminal_is_final :
    (id : String) (state : RunState) (u : Update) (now : ℕ) (s : RunStore) (r : RunRow)
    → find_run s id ≡ some r
    → is_terminal r.state ≡ true
    → transition id state u now s ≡ (err invalid_transition, s)
terminal_is_final id state u now s r found h =
    transition_refuses id state u now s r found (terminal-allowed r.state state h)

-- On tables that calls of the store lead to, a transition that the table allows succeeds and returns the
-- updated row as `get` reads it; the row of the run is the updated one, and its events get one more at
-- the end, with the new state and the number after the last.
pub transition_accepts :
    (id : String) (state : RunState) (u : Update) (now : ℕ) (s : RunStore) (r : RunRow)
    → IsReachable s
    → find_run s id ≡ some r
    → allowed r.state state ≡ true
    → let t = final (transition id state u now s) in
      let e = transition_event id state u now s in
      (transition id state u now s ≡ (ok (run_from_row (updated_run state u now r)), t))
      × (find_run t id ≡ some (updated_run state u now r))
      × (events_of t id ≡ events_of s id ++ e ∷ [])
      × (e.state ≡ state)
      × (e.sequence ≡ suc (length (events_of s id)))
unfolding transition_event
transition_accepts id state u now s r reach found step =
    let (trail, last) = trail_of s id r reach found in
    let whole = transition-ok id state u now s r found step in
    let t = ap final whole in
    (
      whole ∙ ap (λ x. (ok (run_from_row (updated_run state u now r)), x)) (sym t),
      ap (λ x. find_run x id) t ∙ find_run-advance id state u now s r found,
      ap (λ x. events_of x id) t ∙ events_of-advance id state u now s,
      refl,
      omega (arith, max_sequence-trail (events_of s id) trail),
    )
