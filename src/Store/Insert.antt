-- ===== src/Store/Insert.antt =====
-- Transitions, and the insertion of a new run with its first event, keep the tables consistent.
use changesafe.Prelude.{
  ◌≡◌, refl, sym, subst, inl, inr, ℕ, false, Option, none, some, Bool-cases, List, [], ◌∷◌, ◌++◌,
  String, ◌=s=◌, =s=_iff, =s=_refl, any, filter, filter-append, append-nil, find?, if◌then◌else◌,
  ◌==◌, arith,
}
use changesafe.Exec.{final, final-if}
use changesafe.Domain.Change.{ChangeRequest}
use changesafe.Store.States.{RunState, allowed}
use changesafe.Store.Tables.{RunRow, RunStore, has_id, event_of, find_run, events_of}
use changesafe.Store.Runs.{
  Update, transition, transition_from, new_run, created_event, reservation_row,
}
use changesafe.Store.Trail.{is_trail, follows, last_state}
use changesafe.Store.Advance.{Agree, Agree-transfer, IsConsistent, advance-IsConsistent}

transition_from-IsConsistent :
    (o : Option RunRow) (id : String) (state : RunState) (u : Update) (now : ℕ) (s : RunStore)
    → find_run s id ≡ o
    → IsConsistent s
    → IsConsistent (final (transition_from o id state u now s))
unfolding transition_from
transition_from-IsConsistent none id state u now s found c = c
transition_from-IsConsistent (some row) id state u now s found c =
    final-if IsConsistent (allowed row.state state) _ _
      (λ step. advance-IsConsistent id state u now s row found step c) (λ refused. c)

-- `transition` keeps the tables consistent, when it raises too.
pub transition-IsConsistent :
    (id : String) (state : RunState) (u : Update) (now : ℕ) (s : RunStore)
    → IsConsistent s
    → IsConsistent (final (transition id state u now s))
unfolding transition
transition-IsConsistent id state u now s c =
    transition_from-IsConsistent (find_run s id) id state u now s refl c

pub find_run-append :
    (rs : List RunRow) (r : RunRow) (id : String)
    → find? (has_id id) (rs ++ r ∷ []) ≡ (
        if any (has_id id) rs
        then find? (has_id id) rs
        else if r.run_id =s= id
        then some r
        else none)
find_run-append [] r id = ground arith
find_run-append (d ∷ rs) r id = ground (arith, find_run-append rs r id)

pub find-none :
    (rs : List RunRow) (id : String) → any (has_id id) rs ≡ false → find? (has_id id) rs ≡ none
find-none [] id h = refl
find-none (r ∷ rs) id h = ground (arith, find-none rs id)

unfoldable pub inserted : String → ChangeRequest → Option String → ℕ → ℕ → RunStore → RunStore
inserted id change session reservation now s = record s {
  runs = s.runs ++ new_run id change session now ∷ [];
  run_events = s.run_events ++ created_event id now ∷ [];
  llm_usage =
      if reservation == 0
      then s.llm_usage
      else s.llm_usage ++ reservation_row id reservation now ∷ [];
}

inserted-Agree :
    (id : String) (change : ChangeRequest) (session : Option String) (reservation now : ℕ)
    (s : RunStore) (other : String)
    → any (has_id id) s.runs ≡ false
    → events_of s id ≡ []
    → Agree (find_run s other) (events_of s other)
    → (other =s= id) ≡ false
    → Agree
        (find_run (inserted id change session reservation now s) other)
        (events_of (inserted id change session reservation now s) other)
unfolding inserted find_run events_of
inserted-Agree id change session reservation now s other fresh quiet a differs =
    let e = created_event id now in
    let r = new_run id change session now in
    Agree-transfer _ _ _ _
      (ground (
        arith,
        find_run-append s.runs r other,
        find-none s.runs other,
        =s=_iff id other,
        =s=_iff other id,
      ))
      (ground (
        arith,
        filter-append (event_of other) s.run_events (e ∷ []),
        =s=_iff id other,
        =s=_iff other id,
        append-nil (filter (event_of other) s.run_events),
      ))
      a

pub inserted-Agree_new :
    (id : String) (change : ChangeRequest) (session : Option String) (reservation now : ℕ)
    (s : RunStore)
    → any (has_id id) s.runs ≡ false
    → events_of s id ≡ []
    → Agree
        (find_run (inserted id change session reservation now s) id)
        (events_of (inserted id change session reservation now s) id)
unfolding inserted find_run events_of Agree is_trail last_state follows
inserted-Agree_new id change session reservation now s fresh quiet =
    let e = created_event id now in
    let r = new_run id change session now in
    Agree-transfer (some r) _ (e ∷ []) _ (ground (arith, find_run-append s.runs r id, =s=_refl id))
      (ground (arith, filter-append (event_of id) s.run_events (e ∷ []), =s=_refl id)) (refl, refl)

pub Agree-fresh :
    (s : RunStore) (id : String)
    → any (has_id id) s.runs ≡ false
    → Agree (find_run s id) (events_of s id)
    → events_of s id ≡ []
unfolding find_run Agree
Agree-fresh s id fresh a =
    Agree-transfer (find_run s id) none (events_of s id) _ (sym (find-none s.runs id fresh)) refl a

pub inserted-IsConsistent :
    (id : String) (change : ChangeRequest) (session : Option String) (reservation now : ℕ)
    (s : RunStore)
    → any (has_id id) s.runs ≡ false
    → IsConsistent s
    → IsConsistent (inserted id change session reservation now s)
unfolding IsConsistent
inserted-IsConsistent id change session reservation now s fresh c other =
    let t = inserted id change session reservation now s in
    let quiet = Agree-fresh s id fresh (c id) in
    elim (Bool-cases (other =s= id)) [
      | inl same ↦
          subst (λ o. Agree (find_run t o) (events_of t o)) (sym ((=s=_iff other id).0 same))
            (inserted-Agree_new id change session reservation now s fresh quiet)
      | inr differs ↦
          inserted-Agree id change session reservation now s other fresh quiet (c other) differs
    ]
