-- ===== src/SqlTypes/Order.antt =====
-- The classification of type changes as an order on canonical types.
use changesafe.Prelude.{
  ℕ, ◌-◌, ◌≤◌, ◌≡◌, ◌≢◌, refl, ap, inl, inr, ◌&&◌, List, [], ◌∷◌, String, codes, ◌=c=◌, =c=_iff,
  arith, ltb, leb, if◌then◌else◌, ok, ok-injective, Bool-cases, ◌||◌, sym, ◌∙◌, subst,
}
use changesafe.SqlTypes.Canonical.{IsCanonical, canonical_sql_type-IsCanonical}
use changesafe.SqlTypes.Canonicalize.{SqlType, canonical_sql_type}
use changesafe.SqlTypes.Kind.{
  ChangeKind, no_op, widening, incompatible, same_type, sized_kind, number_kind, kind_of,
  type_change_kind,
}
use changesafe.SqlTypes.Sized.{
  IsSized, kind_of_widening_iff, number_parameters, same_type_iff, sized_parameters,
}
use changesafe.SqlTypes.Widens.{
  IsSized_at, Widens, Widens-trans, Widens_of_widening, kind_of_trans, one_or_two, one_parameter,
  two_parameters, type_change_kind-eq, type_change_kind_of, sized, scaled,
}

-- Two successive widenings of a type are one widening.
pub type_change_kind_trans :
    (x y z : String)
    → type_change_kind x y ≡ ok widening
    → type_change_kind y z ≡ ok widening
    → type_change_kind x z ≡ ok widening
type_change_kind_trans x y z h k =
    let (a, b, ea, eb, hab) = type_change_kind-eq x y h in
    let (b', c, eb', ec, hbc) = type_change_kind-eq y z k in
    let same : b' ≡ b = cc (eb, eb') in
    type_change_kind_of x z ea ec
    ∙ kind_of_trans a b c (canonical_sql_type-IsCanonical x a ea)
        (canonical_sql_type-IsCanonical y b eb) (canonical_sql_type-IsCanonical z c ec) hab
        (subst (λ (t : SqlType). kind_of t c ≡ ok widening) same hbc)

sized_kind_at :
    (ms ns : List ℕ) (m n : ℕ)
    → ms ≡ m ∷ []
    → ns ≡ n ∷ []
    → sized_kind ms ns ≡ ok (if ltb m n then widening else incompatible)
unfolding sized_kind
sized_kind_at ms ns m n p q = rw (p, q)

number_kind_at :
    (ms ns : List ℕ) (p s q r : ℕ)
    → ms ≡ p ∷ s ∷ []
    → ns ≡ q ∷ r ∷ []
    → number_kind ms ns ≡ ok (if leb s r && leb (p - s) (q - r) then widening else incompatible)
unfolding number_kind
number_kind_at ms ns p s q r e f = rw (e, f)

sized_kind_total :
    (a b : SqlType)
    → IsCanonical a
    → IsCanonical b
    → a.base ≡ b.base
    → IsSized a
    → (k : ChangeKind) × (sized_kind a.parameters b.parameters ≡ ok k)
sized_kind_total a b ca cb e f =
    let (m, p) = sized_parameters a ca f in
    let (n, q) = sized_parameters b cb (IsSized_at a b e f) in
    (_, sized_kind_at a.parameters b.parameters m n p q)

number_kind_total :
    (a b : SqlType)
    → IsCanonical a
    → IsCanonical b
    → a.base ≡ b.base
    → a.base ≡ codes "NUMBER"
    → (k : ChangeKind) × (number_kind a.parameters b.parameters ≡ ok k)
number_kind_total a b ca cb e f =
    let (p, s, ep, _, _) = number_parameters a ca f in
    let (q, r, eq, _, _) = number_parameters b cb (sym e ∙ f) in
    (_, number_kind_at a.parameters b.parameters p s q r ep eq)

-- Of canonical types with one base `kind_of` reads no parameter that is missing.
kind_of_same_base :
    (a b : SqlType)
    → IsCanonical a
    → IsCanonical b
    → a.base ≡ b.base
    → (k : ChangeKind) × (kind_of a b ≡ ok k)
unfolding kind_of
kind_of_same_base a b ca cb e = elim (Bool-cases (same_type a b)) [
  | inl t ↦ (no_op, ground arith)
  | inr t ↦ elim (Bool-cases (a.base =c= codes "VARCHAR" || a.base =c= codes "BINARY")) [
    | inl f ↦
        let (k, h) =
          sized_kind_total a b ca cb e
            (ground (arith, =c=_iff a.base (codes "VARCHAR"), =c=_iff a.base (codes "BINARY"))) in
        (k, ground (arith, =c=_iff a.base b.base))
    | inr f ↦ elim (Bool-cases (a.base =c= codes "NUMBER")) [
      | inl g ↦
          let (k, h) = number_kind_total a b ca cb e ((=c=_iff a.base (codes "NUMBER")).0 g) in
          (k, ground (arith, =c=_iff a.base b.base))
      | inr g ↦ (incompatible, ground (arith, =c=_iff a.base b.base))
    ]
  ]
]

kind_of_total :
    (a b : SqlType) → IsCanonical a → IsCanonical b → (k : ChangeKind) × (kind_of a b ≡ ok k)
kind_of_total a b ca cb = elim (Bool-cases (a.base =c= b.base)) [
  | inl e ↦ kind_of_same_base a b ca cb ((=c=_iff a.base b.base).0 e)
  | inr e ↦
      (incompatible, unfold kind_of in ground (arith, same_type_iff a b, =c=_iff a.base b.base))
]

-- A change between two accepted types is always classified.
pub type_change_kind_total :
    (x y : String) (a b : SqlType)
    → canonical_sql_type x ≡ ok a
    → canonical_sql_type y ≡ ok b
    → (k : ChangeKind) × (type_change_kind x y ≡ ok k)
type_change_kind_total x y a b ea eb =
    let (k, h) =
      kind_of_total a b (canonical_sql_type-IsCanonical x a ea)
        (canonical_sql_type-IsCanonical y b eb) in
    (k, type_change_kind_of x y ea eb ∙ h)

-- No type widens to itself.
Widens_irrefl : (a : SqlType) → ¬ Widens a a
Widens_irrefl a (sized m n f p q l) = one_parameter a a m n p q l refl
Widens_irrefl a (scaled p s q r f ep eq sp rq sr d l) = two_parameters a a p s q r ep eq l refl

sized_kind-ne-no_op : (ms ns : List ℕ) → sized_kind ms ns ≢ ok no_op
unfolding sized_kind
sized_kind-ne-no_op [] ns h = cc
sized_kind-ne-no_op (m ∷ ms) [] h = cc
sized_kind-ne-no_op (m ∷ ms) (n ∷ ns) h = ground arith

number_kind-ne-no_op : (ms ns : List ℕ) → number_kind ms ns ≢ ok no_op
unfolding number_kind
number_kind-ne-no_op (p ∷ s ∷ []) (q ∷ r ∷ []) h = ground arith
number_kind-ne-no_op (p ∷ s ∷ []) [] h = cc
number_kind-ne-no_op (p ∷ s ∷ []) (q ∷ []) h = cc
number_kind-ne-no_op (p ∷ s ∷ []) (q ∷ r ∷ x ∷ ns) h = cc
number_kind-ne-no_op [] ns h = cc
number_kind-ne-no_op (p ∷ []) ns h = cc
number_kind-ne-no_op (p ∷ s ∷ x ∷ ms) ns h = cc

-- `no_op` is said of equal canonical types alone.
kind_of_no_op : (a b : SqlType) → kind_of a b ≡ ok no_op → a ≡ b
unfolding kind_of
kind_of_no_op a b h = ground (
  arith,
  same_type_iff a b,
  sized_kind-ne-no_op a.parameters b.parameters,
  number_kind-ne-no_op a.parameters b.parameters,
)

kind_of_asymm :
    (a b : SqlType) (k : ChangeKind)
    → IsCanonical a
    → IsCanonical b
    → kind_of a b ≡ ok widening
    → kind_of b a ≡ ok k
    → k ≡ incompatible
kind_of_asymm a b no_op ca cb h e =
    absurd (((kind_of_widening_iff a b).0 h).0 (sym (kind_of_no_op b a e)))
kind_of_asymm a b widening ca cb h e = absurd (
    Widens_irrefl a
      (Widens-trans a b a (Widens_of_widening a b ca cb h).1 (Widens_of_widening b a cb ca e).1))
kind_of_asymm a b incompatible ca cb h e = refl

-- The change back from a widening is incompatible.
pub type_change_kind_asymm :
    (x y : String) → type_change_kind x y ≡ ok widening → type_change_kind y x ≡ ok incompatible
type_change_kind_asymm x y h =
    let (a, b, ea, eb, hab) = type_change_kind-eq x y h in
    let ca = canonical_sql_type-IsCanonical x a ea in
    let cb = canonical_sql_type-IsCanonical y b eb in
    let (k, e) = kind_of_total b a cb ca in
    type_change_kind_of y x eb ea ∙ e ∙ ap ok (kind_of_asymm a b k ca cb hab e)

scaled_conditions :
    (a b : SqlType) (p s q r : ℕ)
    → a.parameters ≡ p ∷ s ∷ []
    → b.parameters ≡ q ∷ r ∷ []
    → Widens a b
    → (s ≤ p) × (r ≤ q) × (s ≤ r) × (p - s ≤ q - r)
scaled_conditions a b p s q r pa pb (sized m n f e e' l) = absurd (one_or_two a e pa)
scaled_conditions a b p s q r pa pb (scaled p' s' q' r' f ep eq sp rq sr d l) = ground arith

-- The conditions behind the widening of a NUMBER type.
pub number_widening :
    (x y : String) (p s q r : ℕ)
    → canonical_sql_type x ≡ ok (record { base = codes "NUMBER"; parameters = p ∷ s ∷ [] })
    → canonical_sql_type y ≡ ok (record { base = codes "NUMBER"; parameters = q ∷ r ∷ [] })
    → type_change_kind x y ≡ ok widening
    → (s ≤ p) × (r ≤ q) × (s ≤ r) × (p - s ≤ q - r)
number_widening x y p s q r ex ey h =
    let (a, b, ea, eb, hab) = type_change_kind-eq x y h in
    let (_, w) =
      Widens_of_widening a b (canonical_sql_type-IsCanonical x a ea)
        (canonical_sql_type-IsCanonical y b eb) hab in
    let pa : a.parameters ≡ p ∷ s ∷ [] =
      ap (λ (t : SqlType). t.parameters) (ok-injective (sym ea ∙ ex)) in
    let pb : b.parameters ≡ q ∷ r ∷ [] =
      ap (λ (t : SqlType). t.parameters) (ok-injective (sym eb ∙ ey)) in
    scaled_conditions a b p s q r pa pb w
