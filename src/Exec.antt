-- ===== src/Exec.antt =====
-- Actions on a state that may raise. What was written before a raise stays written, so the state
-- comes back beside the error too.
use changesafe.Prelude.{◌≡◌, refl, if◌then◌else◌, Bool, true, false, Result, ok, err}

abbrev pub Exec : Type 0 → Type 0 → Type 0 → Type 0
Exec S E A = S → Result E A × S

module _ {S E A : Type 0} where
  abbrev pub pure : A → Exec S E A
  pure a s = (ok a, s)

  abbrev pub raise : E → Exec S E A
  raise e s = (err e, s)

  abbrev pub gets : (S → A) → Exec S E A
  gets f s = (ok (f s), s)

  abbrev pub lift : Result E A → Exec S E A
  lift r s = (r, s)

module _ {S E A B : Type 0} where
  abbrev pub continue : Result E A → (A → Exec S E B) → Exec S E B
  continue (ok a) f s = f a s
  continue (err e) f s = (err e, s)

  infixl 5 ◌>>=◌ ◌>>◌
  abbrev pub ◌>>=◌ : Exec S E A → (A → Exec S E B) → Exec S E B
  ◌>>=◌ m f s = let (r, s') = m s in continue r f s'

  abbrev pub ◌>>◌ : Exec S E A → Exec S E B → Exec S E B
  m >> n = m >>= λ _. n

module _ {S E A : Type 0} where
  -- the state that an action leaves
  abbrev pub final : Result E A × S → S
  final (r, s) = s

  -- A property of the state after a conditional action, from its two branches.
  pub final-if :
      (P : S → Type 0) (b : Bool) (m n : Result E A × S)
      → (b ≡ true → P (final m))
      → (b ≡ false → P (final n))
      → P (final (if b then m else n))
  final-if P true m n holds other = holds refl
  final-if P false m n holds other = other refl
