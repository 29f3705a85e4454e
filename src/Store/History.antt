-- ===== src/Store/History.antt =====
-- What the trails say of the states a run has been in.
use changesafe.Prelude.{
  ◌≡◌, refl, sym, ap, ◌∙◌, subst, ℕ, suc, Bool, true, false, ◌&&◌, ◌||◌, Option, none, some, List,
  [], ◌∷◌, String, drop, any, filter, false≢true, arith,
}
use changesafe.Store.States.{
  RunState, created, validating, validating_warehouse, awaiting_approval, preparing_preview,
  publishing, completed, publication_failed, allowed,
}
use changesafe.Store.Tables.{RunRow, EventRow, RunStore, find_run, event_of, events_of}
use changesafe.Store.Runs.{events, sort_by_sequence}
use changesafe.Store.Trail.{is_trail, follows, last_state, is_created, after, sort-filter-after}
use changesafe.Store.Steps.{IsReachable}
use changesafe.Store.Invariant.{IsReachable-IsConsistent}
use changesafe.Store.Advance.{Agree, IsConsistent}

abbrev pub is_awaiting_approval : RunState → Bool
is_awaiting_approval awaiting_approval = true
is_awaiting_approval _ = false

-- the states of a publication
abbrev pub is_published : RunState → Bool
is_published preparing_preview = true
is_published publishing = true
is_published completed = true
is_published publication_failed = true
is_published _ = false

-- a run that has been in such a state, by its events
abbrev pub has_been : (RunState → Bool) → List EventRow → Bool
has_been p es = any (λ e. p e.state) es

abbrev pub is_validating : RunState → Bool
is_validating validating = true
is_validating _ = false

-- the states after the validation of the plan, less `failed`
abbrev pub is_validated : RunState → Bool
is_validated validating_warehouse = true
is_validated state = is_awaiting_approval state || is_published state

created_of : (state : RunState) → is_created state ≡ true → state ≡ created
created_of state h = ground arith

-- A run that is behind a gate, where every way in goes through the gate, has been at it.
gate-follows :
    (gate behind : RunState → Bool)
    → ((a b : RunState) → allowed a b ≡ true → behind b ≡ true → (behind a || gate a) ≡ true)
    → (n : ℕ) (state : RunState) (es : List EventRow) → follows n state es ≡ true
    → behind (last_state state es) ≡ true
    → (behind state || gate state || has_been gate es) ≡ true
unfolding follows last_state
gate-follows gate behind way n state [] f p = ground arith
gate-follows gate behind way n state (e ∷ es) f p =
    ground (arith, gate-follows gate behind way (suc n) e.state es, way state e.state)

gate-trail :
    (gate behind : RunState → Bool)
    → ((a b : RunState) → allowed a b ≡ true → behind b ≡ true → (behind a || gate a) ≡ true)
    → behind created ≡ false
    → (es : List EventRow) → is_trail es ≡ true
    → behind (last_state created es) ≡ true
    → has_been gate es ≡ true
unfolding is_trail last_state
gate-trail gate behind way start [] t p = absurd (false≢true t)
gate-trail gate behind way start (e ∷ es) t p =
    let q = created_of e.state (ground arith) in
    let f = gate-follows gate behind way 1 e.state es (ground arith) p in ground (arith, q, f)

-- the trail of a run in reachable tables
pub trail_of :
    (s : RunStore) (id : String) (r : RunRow)
    → IsReachable s
    → find_run s id ≡ some r
    → (is_trail (events_of s id) ≡ true) × (last_state created (events_of s id) ≡ r.state)
unfolding Agree IsConsistent
trail_of s id r reach found =
    subst (λ o. Agree o (events_of s id)) found (IsReachable-IsConsistent s reach id)

into_publication :
    (a b : RunState)
    → allowed a b ≡ true
    → is_published b ≡ true
    → (is_published a || is_awaiting_approval a) ≡ true
unfolding allowed
into_publication a b h p = ground arith

into_validated :
    (a b : RunState)
    → allowed a b ≡ true
    → is_validated b ≡ true
    → (is_validated a || is_validating a) ≡ true
unfolding allowed
into_validated a b h p = ground arith

-- In tables that calls of the store lead to, a run that is in a state of publication (preview,
-- publishing, completed or publication failed) has an event that puts it to `awaiting_approval`.
pub published_was_approved :
    (s : RunStore) (id : String) (r : RunRow)
    → IsReachable s
    → find_run s id ≡ some r
    → is_published r.state ≡ true
    → has_been is_awaiting_approval (events_of s id) ≡ true
published_was_approved s id r reach found p =
    let (t, last) = trail_of s id r reach found in
    gate-trail is_awaiting_approval is_published into_publication refl (events_of s id) t
      (ap is_published last ∙ p)

-- In tables that calls of the store lead to, a run that awaits approval, validates in the warehouse or
-- is in a state of publication has an event that puts it to `validating`.
pub approvable_was_validated :
    (s : RunStore) (id : String) (r : RunRow)
    → IsReachable s
    → find_run s id ≡ some r
    → is_validated r.state ≡ true
    → has_been is_validating (events_of s id) ≡ true
approvable_was_validated s id r reach found p =
    let (t, last) = trail_of s id r reach found in
    gate-trail is_validating is_validated into_validated refl (events_of s id) t
      (ap is_validated last ∙ p)

filter-and :
    (p q : EventRow → Bool) (es : List EventRow)
    → filter (λ e. p e && q e) es ≡ filter q (filter p es)
filter-and p q [] = refl
filter-and p q (e ∷ es) = ground (arith, filter-and p q es)

drop-nil : (k : ℕ) → drop {A = EventRow} k [] ≡ []
drop-nil ℕ.zero = refl
drop-nil (suc k) = refl

Agree-events :
    (o : Option RunRow) (es : List EventRow) (k : ℕ)
    → Agree o es
    → sort_by_sequence (filter (after k) es) ≡ drop k es
unfolding Agree sort_by_sequence
Agree-events none es k a =
    subst (λ fs. sort_by_sequence (filter (after k) fs) ≡ drop k fs) (sym a) (sym (drop-nil k))
Agree-events (some r) es k (t, last) = sort-filter-after k es t

-- In tables that calls of the store lead to, `events` after the sequence number `k` gives the events of
-- the run in the order in which they were written, less the first `k`.
pub events_resume :
    (s : RunStore) (id : String) (k : ℕ) → IsReachable s → events id k s ≡ drop k (events_of s id)
unfolding events events_of IsConsistent
events_resume s id k reach =
    ap sort_by_sequence (filter-and (event_of id) (after k) s.run_events)
    ∙ Agree-events (find_run s id) (events_of s id) k (IsReachable-IsConsistent s reach id)
