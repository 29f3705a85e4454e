-- ===== src/Store/Budget.antt =====
-- The budget of the language model, in micro-dollars.
use changesafe.Prelude.{
  ◌≡◌, refl, sym, ap, ◌∙◌, subst, ℕ, zero, suc, ◌+◌, ◌*◌, ◌-◌, ◌/◌, ◌^◌, ◌≤◌, ◌<◌, max, Option,
  some, List, [], ◌∷◌, ◌++◌, String, arith,
}
use native.Mathlib.Nat.{mul_comm}
use native.Mathlib.Omega.{div_fact, mod_fact, pow_step}
use changesafe.Exec.{final}
use changesafe.Domain.Change.{ChangeRequest}
use changesafe.Domain.Publication.{Decimal}
use changesafe.Store.Tables.{RunStore, UsageRow, committed, charge}
use changesafe.Store.Runs.{
  usd_to_micros, excess_digits, half_even, in_context, create, create_run, insert_run,
  insert_into_runs, insert_into_events, insert_into_usage, with_connection, reservation_row,
}
use changesafe.Store.Usage.{update_usage, is_reserved, released}

committed-append :
    (us : List UsageRow) (u : UsageRow) → committed (us ++ u ∷ []) ≡ committed us + charge u
unfolding committed
committed-append [] u = omega arith
committed-append (v ∷ us) u = omega (arith, committed-append us u)

insert_run-committed :
    (id : String) (change : ChangeRequest) (session : Option String) (reservation now : ℕ)
    (s : RunStore)
    → committed (final (with_connection (insert_run id change session reservation now) s)).llm_usage
      ≤ committed s.llm_usage + reservation
unfolding insert_run insert_into_runs insert_into_events insert_into_usage
insert_run-committed id change session reservation now s =
    ground (arith, committed-append s.llm_usage (reservation_row id reservation now))

-- A call of `create` with a budget leaves the committed cost at most at the budget, or where it was
-- when that is more, whether it creates the run or raises.
pub create_within_budget :
    (id : String) (change : ChangeRequest) (session : Option String) (reservation budget : Decimal)
    (now : ℕ) (s : RunStore)
    → committed (final (create id change session reservation (some budget) now s)).llm_usage
      ≤ max (committed s.llm_usage) (usd_to_micros budget)
unfolding create create_run
create_within_budget id change session reservation budget now s =
    ground (arith, insert_run-committed id change session (usd_to_micros reservation) now s)

released-committed :
    (id : String) (now : ℕ) (us : List UsageRow)
    → committed (update_usage (is_reserved id) (released now) us) ≤ committed us
unfolding committed update_usage
released-committed id now [] = omega arith
released-committed id now (u ∷ us) = ground (arith, released-committed id now us)

round_up : (n d : ℕ) → (n ≤ (n + d) / suc d * suc d) × ((n + d) / suc d * suc d < n + suc d)
round_up n d =
    let q = (n + d) / suc d in
    let h = div_fact (n + d) d in
    let b = mod_fact (n + d) d in let c = mul_comm q (suc d) in (omega arith, omega arith)

predecessor : (d : ℕ) → d ≡ suc d - 1
predecessor d = omega arith

round_up_by : (n d : ℕ) → 0 < d → (n ≤ (n + (d - 1)) / d * d) × ((n + (d - 1)) / d * d < n + d)
round_up_by n zero h = absurd (omega arith)
round_up_by n (suc d) h =
    subst (λ m. (n ≤ (n + m) / suc d * suc d) × ((n + m) / suc d * suc d < n + suc d))
      (predecessor d) (round_up n d)

ten_pow-pos : (k : ℕ) → 0 < 10 ^ k
ten_pow-pos zero = omega arith
ten_pow-pos (suc k) = omega (arith, ten_pow-pos k, pow_step 10 k)

few_digits : (fuel n : ℕ) → n < 10 ^ 28 → excess_digits fuel n ≡ 0
unfolding excess_digits
few_digits zero n h = refl
few_digits (suc fuel) n h = ground (arith, h)

half_even_one : (n : ℕ) → half_even n 1 ≡ n
unfolding half_even
half_even_one n = ground (arith, div_fact n 0, mod_fact n 0)

-- A product of at most 28 digits is not rounded.
exact-in_context : (n : ℕ) → n < 10 ^ 28 → in_context n ≡ n
unfolding in_context
exact-in_context n h = ap (λ k. half_even n (10 ^ k)) (few_digits n n h) ∙ half_even_one n

-- For an amount whose product with the micro-dollars has at most 28 digits, `usd_to_micros` rounds up: the
-- micro-dollars are at least the amount, and less than one micro-dollar more (both sides multiplied by
-- the power of ten of the amount's decimal places).
pub usd_to_micros_rounds_up :
    (v : Decimal)
    → v.coefficient * 1_000_000 < 10 ^ 28
    → (v.coefficient * 1_000_000 ≤ usd_to_micros v * 10 ^ v.places)
      × (usd_to_micros v * 10 ^ v.places < v.coefficient * 1_000_000 + 10 ^ v.places)
unfolding usd_to_micros
usd_to_micros_rounds_up v h =
    let n = v.coefficient * 1_000_000 in
    let d = 10 ^ v.places in
    subst (λ m. (n ≤ (m + (d - 1)) / d * d) × ((m + (d - 1)) / d * d < n + d))
      (sym (exact-in_context n h)) (round_up_by n d (ten_pow-pos v.places))
