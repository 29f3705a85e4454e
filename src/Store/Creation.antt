-- ===== src/Store/Creation.antt =====
-- What `create` does when it returns, and when it raises.
use changesafe.Prelude.{
  ◌≡◌, sym, ap, ◌∙◌, inl, inr, ℕ, false, Option, none, some, [], ◌∷◌, String, =s=_refl, any,
  filter-append, Result, ok, err, err-ne-ok, ok-injective, arith,
}
use changesafe.Exec.{final}
use changesafe.Domain.Change.{ChangeRequest}
use changesafe.Domain.Publication.{Decimal}
use changesafe.Store.Tables.{
  RunRow, RunStore, StoreError, integrity, budget_exceeded, has_id, event_of, find_run, events_of,
}
use changesafe.Store.Runs.{usd_to_micros, create, new_run, created_event}
use changesafe.Store.Inserting.{insert_run-cases, create-cases}
use changesafe.Store.Steps.{IsReachable}
use changesafe.Store.Advance.{IsConsistent}
use changesafe.Store.Insert.{inserted, find-none, find_run-append, Agree-fresh}
use changesafe.Store.Invariant.{IsReachable-IsConsistent}

pair-ne :
    (e : StoreError) (r : RunRow) (s t : RunStore)
    → ◌≡◌ {A = Result StoreError RunRow × RunStore} (err e, s) (ok r, t)
    → ⊥
pair-ne e r s t h = err-ne-ok (ap (λ (x : Result StoreError RunRow × RunStore). x.0) h)

-- A `create` that raises, at whichever statement of its transaction, leaves the tables as they were.
pub create_atomic :
    (id : String) (change : ChangeRequest) (session : Option String) (reservation : Decimal)
    (budget : Option Decimal) (now : ℕ) (s t : RunStore) (e : StoreError)
    → create id change session reservation budget now s ≡ (err e, t)
    → t ≡ s
create_atomic id change session reservation budget now s t e h =
    elim (create-cases id change session reservation budget now s) [
      | inl over ↦ ap final (sym h ∙ over)
      | inr inserts ↦ elim (insert_run-cases id change session (usd_to_micros reservation) now s) [
        | inl taken ↦ ap final (sym h ∙ inserts ∙ taken)
        | inr (fresh, done) ↦ absurd (pair-ne e _ t _ (sym h ∙ inserts ∙ done))
      ]
    ]

inserted-found :
    (id : String) (change : ChangeRequest) (session : Option String) (reservation now : ℕ)
    (s : RunStore)
    → any (has_id id) s.runs ≡ false
    → find_run (inserted id change session reservation now s) id
      ≡ some (new_run id change session now)
unfolding inserted find_run
inserted-found id change session reservation now s fresh =
    ground (arith, find_run-append s.runs (new_run id change session now) id, =s=_refl id)

inserted-events :
    (id : String) (change : ChangeRequest) (session : Option String) (reservation now : ℕ)
    (s : RunStore)
    → events_of s id ≡ []
    → events_of (inserted id change session reservation now s) id ≡ created_event id now ∷ []
unfolding inserted events_of
inserted-events id change session reservation now s quiet =
    ground
      (arith, filter-append (event_of id) s.run_events (created_event id now ∷ []), =s=_refl id)

quiet_before :
    (s : RunStore) (id : String)
    → IsReachable s
    → any (has_id id) s.runs ≡ false
    → events_of s id ≡ []
unfolding IsConsistent
quiet_before s id reach fresh = Agree-fresh s id fresh (IsReachable-IsConsistent s reach id)

no_row : (s : RunStore) (id : String) → any (has_id id) s.runs ≡ false → find_run s id ≡ none
unfolding find_run
no_row s id fresh = find-none s.runs id fresh

-- In tables that calls of the store lead to, a `create` that returns a row had no row of that identity
-- before; it returns the new row in `created`, the tables then hold it, and its only event is its
-- creation.
pub create_inserts :
    (id : String) (change : ChangeRequest) (session : Option String) (reservation : Decimal)
    (budget : Option Decimal) (now : ℕ) (s t : RunStore) (r : RunRow)
    → IsReachable s
    → create id change session reservation budget now s ≡ (ok r, t)
    → (find_run s id ≡ none)
      × (r ≡ new_run id change session now)
      × (find_run t id ≡ some (new_run id change session now))
      × (events_of t id ≡ created_event id now ∷ [])
create_inserts id change session reservation budget now s t r reach h =
    elim (create-cases id change session reservation budget now s) [
      | inl over ↦ absurd (pair-ne budget_exceeded r s t (sym over ∙ h))
      | inr inserts ↦ elim (insert_run-cases id change session (usd_to_micros reservation) now s) [
        | inl taken ↦ absurd (pair-ne integrity r s t (sym (inserts ∙ taken) ∙ h))
        | inr (fresh, done) ↦
            let e = sym h ∙ inserts ∙ done in
            (
              no_row s id fresh,
              ok-injective (ap (λ (x : Result StoreError RunRow × RunStore). x.0) e),
              ap (λ (x : Result StoreError RunRow × RunStore). find_run x.1 id) e
                  ∙ inserted-found id change session (usd_to_micros reservation) now s fresh,
              ap (λ (x : Result StoreError RunRow × RunStore). events_of x.1 id) e
                  ∙ inserted-events id change session (usd_to_micros reservation) now s
                      (quiet_before s id reach fresh),
            )
      ]
    ]
