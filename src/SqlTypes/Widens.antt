-- ===== src/SqlTypes/Widens.antt =====
-- What a widening says of canonical types: a larger size, or more digits on both sides of the point.
use changesafe.Prelude.{
  ℕ, ◌-◌, ◌≤◌, ◌<◌, ◌≡◌, ◌≢◌, ap, ◌⊎◌, inl, inr, [], ◌∷◌, String, codes, arith, ok, >>=-eq-ok, sym,
  ◌∙◌,
}
use native.Mathlib.Decide.{dec_lt}
use changesafe.SqlTypes.Canonical.{IsCanonical}
use changesafe.SqlTypes.Canonicalize.{SqlType, canonical_sql_type}
use changesafe.SqlTypes.Kind.{
  ChangeKind, widening, sized_kind, number_kind, kind_of, type_change_kind,
}
use changesafe.SqlTypes.Sized.{
  IsSized, kind_of_widening_iff, number_kind-widening, number_parameters, sized_kind-widening,
  sized_parameters,
}

-- What a widening says of canonical types.
pub data Widens (a b : SqlType) : Type 0 where
  sized : (m n : ℕ) → IsSized a → a.parameters ≡ m ∷ [] → b.parameters ≡ n ∷ [] → m < n → Widens a b
  scaled :
      (p s q r : ℕ)
      → a.base ≡ codes "NUMBER"
      → a.parameters ≡ p ∷ s ∷ []
      → b.parameters ≡ q ∷ r ∷ []
      → s ≤ p
      → r ≤ q
      → s ≤ r
      → p - s ≤ q - r
      → p < q ⊎ s < r
      → Widens a b

same_fields : (a b : SqlType) → a.base ≡ b.base → a.parameters ≡ b.parameters → a ≡ b
same_fields a b p q = λ i. record { base = p i; parameters = q i }

scaled_of :
    (a b : SqlType) (p s q r : ℕ)
    → a ≢ b
    → a.base ≡ b.base
    → a.parameters ≡ p ∷ s ∷ []
    → b.parameters ≡ q ∷ r ∷ []
    → s ≤ p
    → r ≤ q
    → s ≤ r
    → p - s ≤ q - r
    → p < q ⊎ s < r
scaled_of a b p s q r ne be ep eq sp rq sr d = elim (dec_lt p q) [
  | yes l ↦ inl l
  | no l ↦ elim (dec_lt s r) [
    | yes m ↦ inr m
    | no m ↦
        let e : p ≡ q = omega arith in
        let f : s ≡ r = omega arith in absurd (ne (same_fields a b be (cc (ep, eq, e, f))))
  ]
]

pub IsSized_at : (a b : SqlType) → a.base ≡ b.base → IsSized a → IsSized b
IsSized_at a b e (inl h) = inl (sym e ∙ h)
IsSized_at a b e (inr h) = inr (sym e ∙ h)

pub Widens_of_widening :
    (a b : SqlType)
    → IsCanonical a
    → IsCanonical b
    → kind_of a b ≡ ok widening
    → (a.base ≡ b.base) × Widens a b
Widens_of_widening a b ca cb h =
    let (ne, be, way) = (kind_of_widening_iff a b).0 h in
    elim way [
      | inl (f, k) ↦
          let (m, ks, n, ls, p, q, l) = sized_kind-widening a.parameters b.parameters k in
          let (m', p') = sized_parameters a ca f in
          let (n', q') = sized_parameters b cb (IsSized_at a b be f) in
          (be, sized m' n' f p' q' (ground arith))
      | inr (f, k) ↦
          let (p, s, q, r, ep, eq, sr, d) = number_kind-widening a.parameters b.parameters k in
          let (p', s', ep', sp, _) = number_parameters a ca f in
          let (q', r', eq', rq, _) = number_parameters b cb (sym be ∙ f) in
          let e : (p' ≡ p) × (s' ≡ s) × (q' ≡ q) × (r' ≡ r) = ground arith in
          (
            be,
            scaled p' s' q' r' f ep' eq' sp rq (omega arith) (omega arith)
                (scaled_of a b p' s' q' r' ne be ep' eq' sp rq (omega arith) (omega arith)),
          )
    ]

-- A first parameter that grows, or one of two that does, tells the types apart.
pub one_parameter :
    (a b : SqlType) (m n : ℕ) → a.parameters ≡ m ∷ [] → b.parameters ≡ n ∷ [] → m < n → a ≢ b
one_parameter a b m n p q l e = ground (arith, ap (λ (x : SqlType). x.parameters) e)

pub two_parameters :
    (a b : SqlType) (p s q r : ℕ)
    → a.parameters ≡ p ∷ s ∷ []
    → b.parameters ≡ q ∷ r ∷ []
    → p < q ⊎ s < r
    → a ≢ b
two_parameters a b p s q r ep eq l e = ground (arith, ap (λ (x : SqlType). x.parameters) e)

widening_of_Widens : (a b : SqlType) → a.base ≡ b.base → Widens a b → kind_of a b ≡ ok widening
unfolding sized_kind number_kind
widening_of_Widens a b e (sized m n f p q l) =
    (kind_of_widening_iff a b).1 (one_parameter a b m n p q l, e, inl (f, rw (p, q) (ground arith)))
widening_of_Widens a b e (scaled p s q r f ep eq sp rq sr d l) =
    (kind_of_widening_iff a b).1
      (two_parameters a b p s q r ep eq l, e, inr (f, rw (ep, eq) (ground arith)))

-- The two families have parameters of different lengths.
pub one_or_two : (a : SqlType) {m p s : ℕ} → a.parameters ≡ m ∷ [] → a.parameters ≡ p ∷ s ∷ [] → ⊥
one_or_two a e f = cc

pub Widens-trans : (a b c : SqlType) → Widens a b → Widens b c → Widens a c
Widens-trans a b c (sized m n f p q l) (sized m' n' f' p' q' l') = sized m n' f p q' (ground arith)
Widens-trans a b c (scaled p s q r f ep eq sp rq sr d l)
      (scaled p' s' q' r' f' ep' eq' sp' rq' sr' d' l') =
    let e : (q ≡ p') × (r ≡ s') = ground arith in
    scaled p s q' r' f ep eq' sp rq' (omega arith) (omega arith)
      (elim l [ inl x ↦ inl (omega arith) | inr x ↦ inr (omega arith) ])
Widens-trans a b c (sized m n f p q l) (scaled p' s' q' r' f' ep' eq' sp' rq' sr' d' l') =
    absurd (one_or_two b q ep')
Widens-trans a b c (scaled p s q r f ep eq sp rq sr d l) (sized m' n' f' p' q' l') =
    absurd (one_or_two b p' eq)

-- The two types behind a classification.
pub type_change_kind-eq :
    (x y : String) {k : ChangeKind}
    → type_change_kind x y ≡ ok k
    → (a : SqlType) × (b : SqlType) × (canonical_sql_type x ≡ ok a)
      × (canonical_sql_type y ≡ ok b)
      × (kind_of a b ≡ ok k)
unfolding type_change_kind
type_change_kind-eq x y h =
    let (a, ea, h') = >>=-eq-ok (canonical_sql_type x) _ h in
    let (b, eb, hab) = >>=-eq-ok (canonical_sql_type y) _ h' in (a, b, ea, eb, hab)

pub type_change_kind_of :
    (x y : String) {a b : SqlType}
    → canonical_sql_type x ≡ ok a
    → canonical_sql_type y ≡ ok b
    → type_change_kind x y ≡ kind_of a b
unfolding type_change_kind
type_change_kind_of x y ea eb = rw (ea, eb)

pub kind_of_trans :
    (a b c : SqlType)
    → IsCanonical a
    → IsCanonical b
    → IsCanonical c
    → kind_of a b ≡ ok widening
    → kind_of b c ≡ ok widening
    → kind_of a c ≡ ok widening
kind_of_trans a b c ca cb cc' h k =
    let (e, w) = Widens_of_widening a b ca cb h in
    let (f, v) = Widens_of_widening b c cb cc' k in
    widening_of_Widens a c (e ∙ f) (Widens-trans a b c w v)
