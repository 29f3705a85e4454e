-- ===== src/SqlTypes/Values.antt =====
-- What a widening of NUMBER types means for the values of a column. NUMBER(p, s) holds the numbers
-- m / 10 ^ s with m < 10 ^ p (and their negatives).
use native.Mathlib.Nat.{
  add-zero, add-suc, pow-zero, pow-suc, pow-le-pow_right, one-le-pow, mul_assoc, le_trans,
}
use changesafe.Prelude.{
  ℕ, zero, suc, ◌+◌, ◌-◌, ◌*◌, ◌^◌, ◌≤◌, ◌<◌, ◌≡◌, sym, ap, ◌∙◌, subst, String, codes, [], ◌∷◌, ok,
  arith,
}
use changesafe.SqlTypes.Canonicalize.{canonical_sql_type}
use changesafe.SqlTypes.Kind.{widening, type_change_kind}
use changesafe.SqlTypes.Order.{number_widening}

pow-add : (b m n : ℕ) → b ^ (m + n) ≡ b ^ m * b ^ n
pow-add b m zero = rw (add-zero, pow-zero) (omega arith)
pow-add b m (suc n) = simp (add-suc, pow-suc, pow-add b m n, mul_assoc)

mul-lt-mul : {m n k : ℕ} → 1 ≤ k → m < n → m * k < n * k
mul-lt-mul h l = grind arith

rescaled_fits :
    (p s q r m : ℕ) → s ≤ p → r ≤ q → s ≤ r → p - s ≤ q - r → m < 10 ^ p → m * 10 ^ (r - s) < 10 ^ q
rescaled_fits p s q r m sp rq sr d h =
    let room : p + (r - s) ≤ q = omega arith in
    le_trans
      (subst (λ (n : ℕ). m * 10 ^ (r - s) < n) (sym (pow-add 10 p (r - s)))
        (mul-lt-mul (one-le-pow (r - s) 10 (omega arith)) h))
      (pow-le-pow_right (omega arith) room)

-- Where the change from NUMBER(p, s) to NUMBER(q, r) is a widening, every magnitude of at most p
-- digits, rescaled by 10 ^ (r - s), has at most q digits, and stands for the same number.
pub number_widening_keeps_values :
    (x y : String) (p s q r m : ℕ)
    → canonical_sql_type x ≡ ok (record { base = codes "NUMBER"; parameters = p ∷ s ∷ [] })
    → canonical_sql_type y ≡ ok (record { base = codes "NUMBER"; parameters = q ∷ r ∷ [] })
    → type_change_kind x y ≡ ok widening
    → m < 10 ^ p
    → (m * 10 ^ (r - s) < 10 ^ q) × (m * 10 ^ (r - s) * 10 ^ s ≡ m * 10 ^ r)
number_widening_keeps_values x y p s q r m ex ey h lt =
    let (sp, rq, sr, d) = number_widening x y p s q r ex ey h in
    let e : r - s + s ≡ r = omega arith in
    (
      rescaled_fits p s q r m sp rq sr d lt,
      mul_assoc m (10 ^ (r - s)) (10 ^ s)
          ∙ ap (λ (n : ℕ). m * n) (sym (pow-add 10 (r - s) s) ∙ ap (λ (n : ℕ). 10 ^ n) e),
    )
