-- ===== src/Store/Advance.antt =====
-- What an accepted transition does to the rows and events of the run, and that it keeps each run's
-- events a trail that ends at the state of its row.
use changesafe.Prelude.{
  ◌≡◌, refl, sym, ap, ◌∙◌, subst, inl, inr, ℕ, true, false, Option, none, some, Bool-cases, List,
  [], ◌∷◌, ◌++◌, String, ◌=s=◌, =s=_iff, =s=_refl, filter, filter-append, append-nil, find?,
  if◌then◌else◌, arith,
}
use changesafe.Store.States.{RunState, created, allowed}
use changesafe.Store.Tables.{RunRow, EventRow, RunStore, has_id, event_of, find_run, events_of}
use changesafe.Store.Runs.{Update, updated_run, update_runs, advance, transition_event}
use changesafe.Store.Trail.{is_trail, last_state, is_trail-append, max_sequence-trail}

-- what the tables hold of one run
unfoldable pub Agree : Option RunRow → List EventRow → Type 0
Agree none es = es ≡ []
Agree (some r) es = (is_trail es ≡ true) × (last_state created es ≡ r.state)

unfoldable pub IsConsistent : RunStore → Type 0
IsConsistent s = (id : String) → Agree (find_run s id) (events_of s id)

find-update_runs :
    (id other : String) (f : RunRow → RunRow) (rs : List RunRow)
    → ((r : RunRow) → (f r).run_id ≡ r.run_id)
    → find? (has_id other) (update_runs id f rs) ≡ (
        if other =s= id
        then (elim (find? (has_id other) rs) [ none ↦ none | some r ↦ some (f r) ])
        else find? (has_id other) rs)
unfolding update_runs
find-update_runs id other f [] keeps = ground arith
find-update_runs id other f (r ∷ rs) keeps = ground (
  arith,
  find-update_runs id other f rs keeps,
  keeps r,
  =s=_iff r.run_id id,
  =s=_iff r.run_id other,
  =s=_iff other id,
)

updated_run-run_id :
    (state : RunState) (u : Update) (now : ℕ) (r : RunRow)
    → (updated_run state u now r).run_id ≡ r.run_id
unfolding updated_run
updated_run-run_id state u now r = refl

-- The row of the run after an accepted transition.
pub find_run-advance :
    (id : String) (state : RunState) (u : Update) (now : ℕ) (s : RunStore) (r : RunRow)
    → find_run s id ≡ some r
    → find_run (advance id state u now s) id ≡ some (updated_run state u now r)
unfolding advance find_run
find_run-advance id state u now s r found = ground (
  arith,
  find-update_runs id id (updated_run state u now) s.runs (updated_run-run_id state u now),
  =s=_refl id,
)

-- An accepted transition leaves the rows of other runs.
pub find_run-advance_other :
    (id other : String) (state : RunState) (u : Update) (now : ℕ) (s : RunStore)
    → (other =s= id) ≡ false
    → find_run (advance id state u now s) other ≡ find_run s other
unfolding advance find_run
find_run-advance_other id other state u now s h = ground (
  arith,
  find-update_runs id other (updated_run state u now) s.runs (updated_run-run_id state u now),
)

-- An accepted transition adds one event at the end.
pub events_of-advance :
    (id : String) (state : RunState) (u : Update) (now : ℕ) (s : RunStore)
    → events_of (advance id state u now s) id
      ≡ events_of s id ++ transition_event id state u now s ∷ []
unfolding advance events_of transition_event
events_of-advance id state u now s =
    let e = transition_event id state u now s in
    ground (arith, filter-append (event_of id) s.run_events (e ∷ []), =s=_refl id)

-- An accepted transition leaves the events of other runs.
pub events_of-advance_other :
    (id other : String) (state : RunState) (u : Update) (now : ℕ) (s : RunStore)
    → (other =s= id) ≡ false
    → events_of (advance id state u now s) other ≡ events_of s other
unfolding advance events_of transition_event
events_of-advance_other id other state u now s h =
    let e = transition_event id state u now s in
    ground (
      arith,
      filter-append (event_of other) s.run_events (e ∷ []),
      =s=_iff id other,
      =s=_iff other id,
      append-nil (filter (event_of other) s.run_events),
    )

pub Agree-transfer :
    (o o' : Option RunRow) (es es' : List EventRow) → o' ≡ o → es' ≡ es → Agree o es → Agree o' es'
Agree-transfer o o' es es' q r a =
    subst (λ p. Agree p es') (sym q) (subst (λ fs. Agree o fs) (sym r) a)

Agree-advance :
    (id : String) (state : RunState) (u : Update) (now : ℕ) (s : RunStore) (r : RunRow)
    → find_run s id ≡ some r
    → allowed r.state state ≡ true
    → Agree (some r) (events_of s id)
    → Agree
        (some (updated_run state u now r))
        (events_of s id ++ transition_event id state u now s ∷ [])
unfolding Agree updated_run transition_event
Agree-advance id state u now s r found step (t, last) =
    is_trail-append (events_of s id) (transition_event id state u now s) t
      (omega (arith, max_sequence-trail (events_of s id) t))
      (ap (λ st. allowed st state) last ∙ step)

pub advance-IsConsistent :
    (id : String) (state : RunState) (u : Update) (now : ℕ) (s : RunStore) (r : RunRow)
    → find_run s id ≡ some r
    → allowed r.state state ≡ true
    → IsConsistent s
    → IsConsistent (advance id state u now s)
unfolding IsConsistent
advance-IsConsistent id state u now s r found step c other =
    let t = advance id state u now s in
    elim (Bool-cases (other =s= id)) [
      | inl same ↦
          let a = Agree-transfer _ _ _ _ (sym found) refl (c id) in
          subst (λ o. Agree (find_run t o) (events_of t o)) (sym ((=s=_iff other id).0 same))
            (Agree-transfer _ _ _ _ (find_run-advance id state u now s r found)
              (events_of-advance id state u now s) (Agree-advance id state u now s r found step a))
      | inr differs ↦
          Agree-transfer _ _ _ _ (find_run-advance_other id other state u now s differs)
            (events_of-advance_other id other state u now s differs) (c other)
    ]
