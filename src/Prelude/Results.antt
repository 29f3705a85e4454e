-- ===== src/Prelude/Results.antt =====
-- Values or errors, and actions on a state that may raise. What was written before a raise stays
-- written, so an action gives the state back beside an error too.
use mathlib.Core.Path.{◌≡◌, refl}
use mathlib.Core.Bool.{Bool, true, false}

pub data Result {ℓ} (E A : Type ℓ) : Type ℓ where
  err : E → Result E A
  ok : A → Result E A

-- `if not test: raise failure`
abbrev pub guard {ℓ} : {E : Type ℓ} → Bool → E → Result E (Unit {ℓ})
guard test failure = elim test [ false ↦ err failure | true ↦ ok tt ]

abbrev pub is_ok {ℓ} : {E A : Type ℓ} → Result E A → Bool
is_ok outcome = elim outcome [ err failure ↦ false | ok value ↦ true ]

module _ {ℓ} {E A B : Type ℓ} where
  infixl 5 ◌>>=◌ ◌>>◌
  -- the first raise ends the chain
  abbrev pub ◌>>=◌ : Result E A → (A → Result E B) → Result E B
  outcome >>= next = elim outcome [ err failure ↦ err failure | ok value ↦ next value ]

  abbrev pub ◌>>◌ : Result E A → Result E B → Result E B
  outcome >> last = elim outcome [ err failure ↦ err failure | ok value ↦ last ]

  -- A chain with a value had a value at its first step.
  pub >>=-eq-ok :
      (outcome : Result E A) (next : A → Result E B) {result : B}
      → (outcome >>= next) ≡ ok result
      → (value : A) × (outcome ≡ ok value) × (next value ≡ ok result)
  >>=-eq-ok (err failure) next h = cc
  >>=-eq-ok (ok value) next h = (value, refl, h)

module _ {ℓ} {E A B : Type ℓ} where
  -- The same for a step whose value is not used.
  pub >>-eq-ok :
      (outcome : Result E A) (last : Result E B) {result : B}
      → (outcome >> last) ≡ ok result
      → (value : A) × (outcome ≡ ok value) × (last ≡ ok result)
  >>-eq-ok (err failure) last h = cc
  >>-eq-ok (ok value) last h = (value, refl, h)

pub err-ne-ok {ℓ} : {E A : Type ℓ} {e : E} {a : A} → err e ≡ ok a → ⊥
err-ne-ok h = cc h

pub ok-injective {ℓ} : {E A : Type ℓ} {a b : A} → ◌≡◌ {A = Result E A} (ok a) (ok b) → a ≡ b
ok-injective h = cc h

-- A result that is no error is a value.
pub ok_of_ne_err {ℓ} :
    {E A : Type ℓ} (r : Result E A) → ((e : E) → r ≡ err e → ⊥) → (a : A) × (r ≡ ok a)
ok_of_ne_err (ok a) h = (a, refl)
ok_of_ne_err (err e) h = absurd (h e refl)
