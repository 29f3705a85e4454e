-- ===== src/SqlTypes/Sized.antt =====
-- Types with one size, and the branches of `type_change_kind` that compare sizes.
use changesafe.Prelude.{
  ℕ, ◌-◌, ◌≤◌, ◌<◌, ◌≡◌, ◌≢◌, refl, ap, true, false, ◌⊎◌, inl, inr, ◌↔◌, List, [], ◌∷◌, Codes,
  codes, ◌=c=◌, elem_codes, =c=_iff, arith, ok,
}
use changesafe.SqlTypes.Canonical.{IsCanonical, number, float, varchar, binary, timestamp, plain}
use changesafe.SqlTypes.Canonicalize.{SqlType, timestamp_types, parameterless_types}
use changesafe.SqlTypes.Kind.{
  widening, same_parameters, same_type, sized_kind, number_kind, kind_of,
}

same_parameters_iff : (ms ns : List ℕ) → (same_parameters ms ns ≡ true) ↔ (ms ≡ ns)
unfolding same_parameters
same_parameters_iff [] [] = ground arith
same_parameters_iff [] (n ∷ ns) = ground arith
same_parameters_iff (m ∷ ms) [] = ground arith
same_parameters_iff (m ∷ ms) (n ∷ ns) = ground (arith, same_parameters_iff ms ns)

pub same_type_iff : (a b : SqlType) → (same_type a b ≡ true) ↔ (a ≡ b)
unfolding same_type
same_type_iff a b =
    ground (arith, =c=_iff a.base b.base, same_parameters_iff a.parameters b.parameters)

pub sized_kind-widening :
    (ms ns : List ℕ)
    → sized_kind ms ns ≡ ok widening
    → (m : ℕ) × (ks : List ℕ) × (n : ℕ) × (ls : List ℕ) × (ms ≡ m ∷ ks) × (ns ≡ n ∷ ls) × (m < n)
unfolding sized_kind
sized_kind-widening [] ns h = cc
sized_kind-widening (m ∷ ks) [] h = cc
sized_kind-widening (m ∷ ks) (n ∷ ls) h = (m, ks, n, ls, refl, refl, ground arith)

pub number_kind-widening :
    (ms ns : List ℕ)
    → number_kind ms ns ≡ ok widening
    → (p : ℕ) × (s : ℕ) × (q : ℕ) × (r : ℕ) × (ms ≡ p ∷ s ∷ [])
      × (ns ≡ q ∷ r ∷ [])
      × (s ≤ r)
      × (p - s ≤ q - r)
unfolding number_kind
number_kind-widening (p ∷ s ∷ []) (q ∷ r ∷ []) h =
    (p, s, q, r, refl, refl, ground arith, ground arith)
number_kind-widening (p ∷ s ∷ []) [] h = cc
number_kind-widening (p ∷ s ∷ []) (q ∷ []) h = cc
number_kind-widening (p ∷ s ∷ []) (q ∷ r ∷ x ∷ ns) h = cc
number_kind-widening [] ns h = cc
number_kind-widening (p ∷ []) ns h = cc
number_kind-widening (p ∷ s ∷ x ∷ ms) ns h = cc

-- Texts and binaries.
abbrev pub IsSized : SqlType → Type 0
IsSized a = (a.base ≡ codes "VARCHAR") ⊎ (a.base ≡ codes "BINARY")

-- The ways through `kind_of` that give a widening, and back.
pub kind_of_widening_iff :
    (a b : SqlType)
    → (kind_of a b ≡ ok widening) ↔ (
        (a ≢ b)
        × (a.base ≡ b.base)
        × (IsSized a × (sized_kind a.parameters b.parameters ≡ ok widening)
            ⊎ (a.base ≡ codes "NUMBER") × (number_kind a.parameters b.parameters ≡ ok widening)))
unfolding kind_of
kind_of_widening_iff a b = ground (
  arith,
  same_type_iff a b,
  =c=_iff a.base b.base,
  =c=_iff a.base (codes "VARCHAR"),
  =c=_iff a.base (codes "BINARY"),
  =c=_iff a.base (codes "NUMBER"),
)

-- Two canonical bases that differ.
base_clash : (x y : Codes) {z : Codes} → z ≡ x → z ≡ y → (x =c= y) ≡ false → ⊥
base_clash x y p q h = ground (arith, =c=_iff x y)

-- A base that is one of a set is none that the set lacks.
base_not_in :
    (x : Codes) (set : List Codes) {z : Codes}
    → z ≡ x
    → elem_codes z set ≡ true
    → elem_codes x set ≡ false
    → ⊥
base_not_in x set p q h = cc

abbrev base_of : SqlType → Codes
base_of t = t.base

pub number_parameters :
    (t : SqlType)
    → IsCanonical t
    → t.base ≡ codes "NUMBER"
    → (p : ℕ) × (s : ℕ) × (t.parameters ≡ p ∷ s ∷ []) × (s ≤ p) × (p ≤ 38)
unfolding elem_codes ◌=c=◌
number_parameters t (number p s e l u m n) h = (p, s, ap (λ (x : SqlType). x.parameters) e, m, u)
number_parameters t (float e) h =
    absurd (base_clash (codes "FLOAT") (codes "NUMBER") (ap base_of e) h refl)
number_parameters t (varchar n e l u) h =
    absurd (base_clash (codes "VARCHAR") (codes "NUMBER") (ap base_of e) h refl)
number_parameters t (binary n e l u) h =
    absurd (base_clash (codes "BINARY") (codes "NUMBER") (ap base_of e) h refl)
number_parameters t (timestamp n m d e u) h =
    absurd (base_not_in (codes "NUMBER") timestamp_types h m refl)
number_parameters t (plain m e) h =
    absurd (base_not_in (codes "NUMBER") parameterless_types h m refl)

pub sized_parameters : (t : SqlType) → IsCanonical t → IsSized t → (n : ℕ) × (t.parameters ≡ n ∷ [])
unfolding elem_codes ◌=c=◌
sized_parameters t (number p s e l u m n) (inl h) =
    absurd (base_clash (codes "NUMBER") (codes "VARCHAR") (ap base_of e) h refl)
sized_parameters t (number p s e l u m n) (inr h) =
    absurd (base_clash (codes "NUMBER") (codes "BINARY") (ap base_of e) h refl)
sized_parameters t (float e) (inl h) =
    absurd (base_clash (codes "FLOAT") (codes "VARCHAR") (ap base_of e) h refl)
sized_parameters t (float e) (inr h) =
    absurd (base_clash (codes "FLOAT") (codes "BINARY") (ap base_of e) h refl)
sized_parameters t (varchar n e l u) h = (n, ap (λ (x : SqlType). x.parameters) e)
sized_parameters t (binary n e l u) h = (n, ap (λ (x : SqlType). x.parameters) e)
sized_parameters t (timestamp n m d e u) h = (n, e)
sized_parameters t (plain m e) (inl h) =
    absurd (base_not_in (codes "VARCHAR") parameterless_types h m refl)
sized_parameters t (plain m e) (inr h) =
    absurd (base_not_in (codes "BINARY") parameterless_types h m refl)
