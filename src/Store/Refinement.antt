-- ===== src/Store/Refinement.antt =====
-- What the tables promise of the runs, without rows, numbers, times and messages: each run has a
-- history of states, which starts in `created` and grows by allowed steps.
use mathlib.Core.Path.{fun_ext}
use changesafe.Prelude.{
  ◌≡◌, refl, sym, ap, ◌∙◌, subst, inl, inr, ℕ, true, false, Option, some, List, [], ◌∷◌, ◌++◌,
  String, ◌=s=◌, =s=_iff, =s=_refl, map, is_empty, filter, filter-append, append-nil, if◌then◌else◌,
  Bool-cases, arith,
}
use changesafe.Exec.{final, final-if}
use changesafe.Domain.Change.{ChangeRequest}
use changesafe.Domain.Publication.{Decimal, PublicationLedgerEntry}
use changesafe.Store.States.{RunState, created, allowed}
use changesafe.Store.Tables.{RunRow, EventRow, RunStore, event_of, events_of}
use changesafe.Store.Runs.{
  Update, usd_to_micros, created_event, transition_event, advance, transition, create,
}
use changesafe.Store.Usage.{record_llm_usage, release_llm_reservation}
use changesafe.Store.Ledger.{save_publication, is_bound_elsewhere, find_publication}
use changesafe.Store.Trail.{is_trail, last_state}
use changesafe.Store.Steps.{
  Call, create_call, transition_call, record_llm_usage_call, release_llm_reservation_call,
  save_publication_call, run, IsReachable,
}
use changesafe.Store.Advance.{Agree, IsConsistent, events_of-advance, events_of-advance_other}
use changesafe.Store.Insert.{inserted, Agree-fresh}
use changesafe.Store.Invariant.{IsReachable-IsConsistent}
use changesafe.Store.Inserting.{insert_run-cases, create-cases}
use changesafe.Store.Behaviour.{transition-cases, transition-ok}

abbrev pub Histories : Type 0
Histories = String → List RunState

abbrev pub last : RunState → List RunState → RunState
last state [] = state
last state (b ∷ bs) = last b bs

-- the histories with another one of a run
abbrev pub with_history : String → List RunState → Histories → Histories
with_history id states h other = if other =s= id then states else h other

-- A step of the specification: nothing, a new run, or a next state that the table of transitions allows
-- after the last.
pub data SpecStep (h : Histories) : Histories → Type 0 where
  unchanged : SpecStep h h
  starts : (id : String) → h id ≡ [] → SpecStep h (with_history id (created ∷ []) h)
  moves :
      (id : String) (state : RunState)
      → is_empty (h id) ≡ false
      → allowed (last created (h id)) state ≡ true
      → SpecStep h (with_history id (h id ++ state ∷ []) h)

abbrev pub state_of : EventRow → RunState
state_of e = e.state

-- the histories that the rows of `run_events` show
unfoldable pub histories : RunStore → Histories
histories s id = map state_of (events_of s id)

map-append :
    (es : List EventRow) (e : EventRow)
    → map state_of (es ++ e ∷ []) ≡ map state_of es ++ e.state ∷ []
map-append [] e = refl
map-append (d ∷ es) e = ap (λ bs. d.state ∷ bs) (map-append es e)

last-map :
    (state : RunState) (es : List EventRow) → last state (map state_of es) ≡ last_state state es
unfolding last_state
last-map state [] = refl
last-map state (e ∷ es) = last-map e.state es

trail-not_empty : (es : List EventRow) → is_trail es ≡ true → is_empty (map state_of es) ≡ false
unfolding is_trail
trail-not_empty [] h = ground (arith, h)
trail-not_empty (e ∷ es) h = refl

with_history-eq :
    (id : String) (states : List RunState) (h h' : Histories)
    → h' id ≡ states
    → ((other : String) → (other =s= id) ≡ false → h' other ≡ h other)
    → with_history id states h ≡ h'
with_history-eq id states h h' here there = fun_ext (λ other. elim (Bool-cases (other =s= id)) [
  | inl same ↦
      ap (λ b. if b then states else h other) same ∙ sym (ap h' ((=s=_iff other id).0 same) ∙ here)
  | inr differs ↦ ap (λ b. if b then states else h other) differs ∙ sym (there other differs)
])

histories-advance :
    (id : String) (state : RunState) (u : Update) (now : ℕ) (s : RunStore)
    → with_history id (histories s id ++ state ∷ []) (histories s)
      ≡ histories (advance id state u now s)
unfolding histories transition_event
histories-advance id state u now s =
    with_history-eq id (histories s id ++ state ∷ []) (histories s)
      (histories (advance id state u now s))
      (ap (map state_of) (events_of-advance id state u now s) ∙ map-append (events_of s id) _)
      (λ other differs. ap (map state_of) (events_of-advance_other id other state u now s differs))

Agree-last :
    (r : RunRow) (es : List EventRow)
    → Agree (some r) es
    → (is_empty (map state_of es) ≡ false) × (last created (map state_of es) ≡ r.state)
unfolding Agree
Agree-last r es (trail, ends) = (trail-not_empty es trail, last-map created es ∙ ends)

Refines : RunStore → RunStore → Type 0
unfolding histories
Refines s t = SpecStep (histories s) (histories t)

same-Refines : (s t : RunStore) → t.run_events ≡ s.run_events → Refines s t
unfolding Refines histories events_of
same-Refines s t h =
    subst (λ es. SpecStep (histories s) (λ id. map state_of (filter (event_of id) es))) (sym h)
      unchanged

events_of-inserted :
    (id other : String) (change : ChangeRequest) (session : Option String) (reservation now : ℕ)
    (s : RunStore)
    → events_of (inserted id change session reservation now s) other
      ≡ (if id =s= other then events_of s other ++ created_event id now ∷ [] else events_of s other)
unfolding inserted events_of
events_of-inserted id other change session reservation now s = ground (
  arith,
  filter-append (event_of other) s.run_events (created_event id now ∷ []),
  append-nil (filter (event_of other) s.run_events),
)

differs_sym : (a b : String) → (a =s= b) ≡ false → (b =s= a) ≡ false
differs_sym a b h = ground (arith, h, =s=_iff a b, =s=_iff b a)

inserted-Refines :
    (id : String) (change : ChangeRequest) (session : Option String) (reservation now : ℕ)
    (s : RunStore)
    → events_of s id ≡ []
    → Refines s (inserted id change session reservation now s)
unfolding Refines histories
inserted-Refines id change session reservation now s quiet =
    let t = inserted id change session reservation now s in
    subst (SpecStep (histories s))
      (with_history-eq id (created ∷ []) (histories s) (histories t)
        (ap (map state_of) (
          events_of-inserted id id change session reservation now s
          ∙ ap (λ b. if b then events_of s id ++ created_event id now ∷ [] else events_of s id)
              (=s=_refl id)
          ∙ ap (λ es. es ++ created_event id now ∷ []) quiet))
        (λ other differs. ap (map state_of) (
          events_of-inserted id other change session reservation now s
          ∙ ap
              (λ b. if b then events_of s other ++ created_event id now ∷ [] else events_of s other)
              (differs_sym other id differs))))
      (starts id (ap (map state_of) quiet))

create-Refines :
    (id : String) (change : ChangeRequest) (session : Option String) (reservation : Decimal)
    (budget : Option Decimal) (now : ℕ) (s : RunStore)
    → IsConsistent s
    → Refines s (final (create id change session reservation budget now s))
unfolding IsConsistent
create-Refines id change session reservation budget now s c =
    elim (create-cases id change session reservation budget now s) [
      | inl over ↦ subst (λ x. Refines s (final x)) (sym over) (same-Refines s s refl)
      | inr inserts ↦ elim (insert_run-cases id change session (usd_to_micros reservation) now s) [
        | inl taken ↦
            subst (λ x. Refines s (final x)) (sym (inserts ∙ taken)) (same-Refines s s refl)
        | inr (fresh, added) ↦
            subst (λ x. Refines s (final x)) (sym (inserts ∙ added))
              (inserted-Refines id change session (usd_to_micros reservation) now s
                (Agree-fresh s id fresh (c id)))
      ]
    ]

save-Refines :
    (entry : PublicationLedgerEntry) (now : ℕ) (s : RunStore)
    → Refines s (final (save_publication entry now s))
unfolding save_publication
save-Refines entry now s =
    final-if (Refines s)
      (is_bound_elsewhere (find_publication s entry.idempotency_key) entry.artifact_hash) _ _
      (λ refused. same-Refines s s refl) (λ free. same-Refines s _ refl)

transition-Refines :
    (id : String) (state : RunState) (u : Update) (now : ℕ) (s : RunStore)
    → IsConsistent s
    → Refines s (final (transition id state u now s))
unfolding IsConsistent Refines histories
transition-Refines id state u now s c = elim (transition-cases id state u now s) [
  | inl (e, h) ↦ subst (λ x. Refines s (final x)) (sym h) (same-Refines s s refl)
  | inr (r, found, step) ↦
      let (full, ends) =
        Agree-last r (events_of s id) (subst (λ o. Agree o (events_of s id)) found (c id)) in
      subst (λ x. Refines s (final x)) (sym (transition-ok id state u now s r found step))
        (subst (SpecStep (histories s)) (histories-advance id state u now s)
          (moves id state full (ap (λ b. allowed b state) ends ∙ step)))
]

-- On all tables that calls lead to, each call of a method of the store, accepted or not, is a step of the
-- specification: it leaves the histories of all runs, or starts the history of a run that has none, or
-- adds to that of one run a state that the table of transitions allows after its last.
pub store_refines :
    (c : Call) (s : RunStore) → IsReachable s → SpecStep (histories s) (histories (run c s))
unfolding run Refines record_llm_usage release_llm_reservation
store_refines (create_call id change session reservation budget now) s reach =
    create-Refines id change session reservation budget now s (IsReachable-IsConsistent s reach)
store_refines (transition_call id state u now) s reach =
    transition-Refines id state u now s (IsReachable-IsConsistent s reach)
store_refines (record_llm_usage_call id usage now) s reach = same-Refines s _ refl
store_refines (release_llm_reservation_call id now) s reach = same-Refines s _ refl
store_refines (save_publication_call entry now) s reach = save-Refines entry now s
