-- ===== src/Store/Trail.antt =====
-- The trail of a run: its events in the order of insertion are numbered from 1, start at `created`
-- and follow the table of transitions.
use changesafe.Prelude.{
  ◌≡◌, refl, ℕ, suc, ◌+◌, ◌≤◌, max, Bool, true, false, ◌&&◌, List, [], ◌∷◌, ◌++◌, length, filter,
  drop, ap, ◌∙◌, false≢true, ltb, ◌==◌, arith,
}
use changesafe.Store.States.{RunState, created, allowed}
use changesafe.Store.Tables.{EventRow, max_sequence}
use changesafe.Store.Runs.{insert_by_sequence, sort_by_sequence}

abbrev pub is_created : RunState → Bool
is_created created = true
is_created _ = false

-- `n` events came before, the last of them in `state`
unfoldable pub follows : ℕ → RunState → List EventRow → Bool
follows n state [] = true
follows n state (e ∷ es) =
    e.sequence == suc n && allowed state e.state && follows (suc n) e.state es

unfoldable pub last_state : RunState → List EventRow → RunState
last_state state [] = state
last_state state (e ∷ es) = last_state e.state es

unfoldable pub is_trail : List EventRow → Bool
unfolding follows
is_trail [] = false
is_trail (e ∷ es) = e.sequence == 1 && is_created e.state && follows 1 e.state es

follows-append :
    (n : ℕ) (state : RunState) (es : List EventRow) (e : EventRow)
    → follows n state es ≡ true
    → e.sequence ≡ suc (n + length es)
    → allowed (last_state state es) e.state ≡ true
    → follows n state (es ++ e ∷ []) ≡ true
unfolding follows last_state
follows-append n state [] e f q a = ground arith
follows-append n state (d ∷ es) e f q a = ground (arith, follows-append (suc n) d.state es e)

last_state-append :
    (state : RunState) (es : List EventRow) (e : EventRow)
    → last_state state (es ++ e ∷ []) ≡ e.state
unfolding last_state
last_state-append state [] e = refl
last_state-append state (d ∷ es) e = last_state-append d.state es e

-- A trail goes on with an event that has the next number and an allowed state.
pub is_trail-append :
    (es : List EventRow) (e : EventRow)
    → is_trail es ≡ true
    → e.sequence ≡ suc (length es)
    → allowed (last_state created es) e.state ≡ true
    → (is_trail (es ++ e ∷ []) ≡ true) × (last_state created (es ++ e ∷ []) ≡ e.state)
unfolding is_trail last_state
is_trail-append [] e t q a = ground arith
is_trail-append (d ∷ es) e t q a =
    (ground (arith, follows-append 1 d.state es e), last_state-append d.state es e)

max_sequence-follows :
    (n : ℕ) (state : RunState) (es : List EventRow)
    → follows n state es ≡ true
    → max n (max_sequence es) ≡ n + length es
unfolding follows max_sequence
max_sequence-follows n state [] f = ground arith
max_sequence-follows n state (e ∷ es) f = ground (arith, max_sequence-follows (suc n) e.state es)

-- The largest number in a trail is its length.
pub max_sequence-trail : (es : List EventRow) → is_trail es ≡ true → max_sequence es ≡ length es
unfolding is_trail max_sequence
max_sequence-trail [] t = ground arith
max_sequence-trail (e ∷ es) t = ground (arith, max_sequence-follows 1 e.state es)

-- the rows of a run that `events` selects
abbrev pub after : ℕ → EventRow → Bool
after k e = ltb k e.sequence

follows-cons :
    (n : ℕ) (state : RunState) (e : EventRow) (es : List EventRow)
    → follows n state (e ∷ es) ≡ true
    → (e.sequence ≡ suc n) × (follows (suc n) e.state es ≡ true)
unfolding follows
follows-cons n state e es f = (ground arith, ground arith)

filter-all :
    (k n : ℕ) (state : RunState) (es : List EventRow)
    → follows n state es ≡ true
    → k ≤ n
    → filter (after k) es ≡ es
filter-all k n state [] f h = refl
filter-all k n state (e ∷ es) f h =
    let (q, f') = follows-cons n state e es f in ground (arith, filter-all k (suc n) e.state es f')

filter-after :
    (k n : ℕ) (state : RunState) (es : List EventRow)
    → follows n state es ≡ true
    → filter (after (n + k)) es ≡ drop k es
filter-after ℕ.zero n state es f = filter-all (n + 0) n state es f (omega arith)
filter-after (suc k) n state [] f = refl
filter-after (suc k) n state (e ∷ es) f =
    let (q, f') = follows-cons n state e es f in
    let rest = filter-after k (suc n) e.state es f' in ground (arith, rest)

insert-follows :
    (n : ℕ) (state : RunState) (e : EventRow) (es : List EventRow)
    → follows n state (e ∷ es) ≡ true
    → insert_by_sequence e es ≡ e ∷ es
unfolding follows insert_by_sequence
insert-follows n state e [] f = refl
insert-follows n state e (d ∷ es) f = ground arith

sort-follows :
    (n : ℕ) (state : RunState) (es : List EventRow)
    → follows n state es ≡ true
    → sort_by_sequence es ≡ es
unfolding sort_by_sequence
sort-follows n state [] f = refl
sort-follows n state (e ∷ es) f =
    let (q, f') = follows-cons n state e es f in
    ap (insert_by_sequence e) (sort-follows (suc n) e.state es f') ∙ insert-follows n state e es f

sort-drop :
    (k n : ℕ) (state : RunState) (es : List EventRow)
    → follows n state es ≡ true
    → sort_by_sequence (drop k es) ≡ drop k es
unfolding sort_by_sequence
sort-drop ℕ.zero n state es f = sort-follows n state es f
sort-drop (suc k) n state [] f = refl
sort-drop (suc k) n state (e ∷ es) f =
    let (q, f') = follows-cons n state e es f in sort-drop k (suc n) e.state es f'

filter-after-cons :
    (k : ℕ) (e : EventRow) (es : List EventRow)
    → e.sequence ≡ 1
    → follows 1 e.state es ≡ true
    → filter (after (suc k)) (e ∷ es) ≡ drop k es
filter-after-cons k e es q f = let rest = filter-after k 1 e.state es f in ground (arith, rest)

filter_all_cons :
    (e : EventRow) (es : List EventRow)
    → e.sequence ≡ 1
    → follows 1 e.state es ≡ true
    → filter (after 0) (e ∷ es) ≡ e ∷ es
filter_all_cons e es q f =
    let rest = filter-all 0 1 e.state es f (omega arith) in ground (arith, rest)

insert_first :
    (e : EventRow) (es : List EventRow)
    → e.sequence ≡ 1
    → follows 1 e.state es ≡ true
    → insert_by_sequence e es ≡ e ∷ es
unfolding follows insert_by_sequence
insert_first e [] q f = refl
insert_first e (d ∷ es) q f = ground arith

sort-filter-all :
    (e : EventRow) (es : List EventRow)
    → e.sequence ≡ 1
    → follows 1 e.state es ≡ true
    → sort_by_sequence (filter (after 0) (e ∷ es)) ≡ e ∷ es
unfolding sort_by_sequence insert_by_sequence
sort-filter-all e es q f =
    ap sort_by_sequence (filter_all_cons e es q f)
    ∙ ap (insert_by_sequence e) (sort-follows 1 e.state es f)
    ∙ insert_first e es q f

-- What `events` selects from a trail: all but the first `k`.
pub sort-filter-after :
    (k : ℕ) (es : List EventRow)
    → is_trail es ≡ true
    → sort_by_sequence (filter (after k) es) ≡ drop k es
unfolding is_trail
sort-filter-after k [] t = absurd (false≢true t)
sort-filter-after ℕ.zero (e ∷ es) t = sort-filter-all e es (ground arith) (ground arith)
sort-filter-after (suc k) (e ∷ es) t =
    ap sort_by_sequence (filter-after-cons k e es (ground arith) (ground arith))
    ∙ sort-drop k 1 e.state es (ground arith)
