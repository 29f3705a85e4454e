-- ===== src/Warehouse/Clean.antt =====
-- The parts of the texts of a plan have no delimiter and no comment marker.
use changesafe.Prelude.{
  is_empty, false≢true, Bool-cases, inl, inr, String, ◌≡◌, refl, sym, ◌∙◌, subst, ℕ, zero, suc, ◌+◌,
  ◌/◌, ◌%◌, Bool, true, false, not, ◌&&◌, ◌||◌, List, [], ◌∷◌, ◌++◌, Codes, codes, upper,
  upper_code, ◌=c=◌, =c=_iff, elem_codes, starts_with, contains, all, all-append, any, ◌==◌, Result,
  ok, err, ok-injective, >>=-eq-ok, arith,
}
use native.Mathlib.Omega.{mod_fact}
use changesafe.SqlTypes.Parts.{is_digit, TypeError}
use changesafe.SqlTypes.Canonicalize.{SqlType, canonical_sql_type}
use changesafe.Domain.Change.{is_identifier, is_letter}
use changesafe.Config.Settings.{split_on, join_codes}
use changesafe.Warehouse.Text.{
  type_error, quoted, quote_identifier, normalize_relation, quote_all, render_relation, text_of,
  digits, number_text, parameters_text, base_text, type_text, render_try_cast_type,
  supported_try_cast_types,
}
use changesafe.Warehouse.Guard.{has_delimiter}
use changesafe.Warehouse.Normal.{quote-identifier}

-- a character that stands in no delimiter and in no comment marker
unfoldable pub is_clean : ℕ → Bool
is_clean c = not (c == b';') && not (c == b'-') && not (c == b'/')

unfoldable pub IsClean : Codes → Type 0
unfolding is_clean
IsClean s = all is_clean s ≡ true

no_dashes : (s : Codes) → all is_clean s ≡ true → contains (codes "--") s ≡ false
unfolding contains starts_with is_clean
no_dashes [] h = refl
no_dashes (c ∷ s) h = ground (arith, h, no_dashes s)

no_opening : (s : Codes) → all is_clean s ≡ true → contains (codes "/*") s ≡ false
unfolding contains starts_with is_clean
no_opening [] h = refl
no_opening (c ∷ s) h = ground (arith, h, no_opening s)

no_closing : (s : Codes) → all is_clean s ≡ true → contains (codes "*/") s ≡ false
unfolding contains starts_with is_clean
no_closing [] h = refl
no_closing (c ∷ []) h = ground (arith, h)
no_closing (c ∷ d ∷ s) h = ground (arith, h, no_closing (d ∷ s))

no_semicolon : (s : Codes) → all is_clean s ≡ true → any (λ c. c == b';') s ≡ false
unfolding is_clean
no_semicolon [] h = refl
no_semicolon (c ∷ s) h = ground (arith, h, no_semicolon s)

pub IsClean-has_delimiter : (s : Codes) → IsClean s → has_delimiter s ≡ false
unfolding has_delimiter IsClean
IsClean-has_delimiter s h =
    ground (arith, no_semicolon s h, no_dashes s h, no_opening s h, no_closing s h)

append-IsClean : (s t : Codes) → IsClean s → IsClean t → IsClean (s ++ t)
unfolding IsClean
append-IsClean s t h k = ground (arith, all-append is_clean s t, h, k)

part-IsClean :
    (c : ℕ) → (is_letter c || is_digit c || c == b'_') ≡ true → is_clean (upper_code c) ≡ true
unfolding is_letter is_digit upper_code is_clean
part-IsClean c h = ground (arith, h)

parts-IsClean :
    (s : Codes) → all (λ c. is_letter c || is_digit c || c == b'_') s ≡ true → IsClean (upper s)
unfolding IsClean upper
parts-IsClean [] h = refl
parts-IsClean (c ∷ s) h = ground (arith, h, part-IsClean c, parts-IsClean s)

identifier-IsClean : (s : Codes) → is_identifier s ≡ true → IsClean (upper s)
unfolding is_identifier IsClean upper
identifier-IsClean [] h = ground (arith, h)
identifier-IsClean (c ∷ s) h = ground (arith, h, part-IsClean c, parts-IsClean s)

quoted-IsClean : (s : Codes) → IsClean (upper s) → IsClean (quoted s)
unfolding IsClean is_clean
quoted-IsClean s h = ground (arith, all-append is_clean (upper s) (34 ∷ []), h)

pub quote-IsClean : (s q : Codes) → quote_identifier s ≡ ok q → IsClean q
unfolding quote_identifier
quote-IsClean s q h = elim (Bool-cases (is_identifier s)) [
  | inl named ↦
      subst IsClean (ok-injective (sym (quote-identifier s named) ∙ h))
        (quoted-IsClean s (identifier-IsClean s named))
  | inr unnamed ↦ ground (arith, h, unnamed)
]

AllClean : List Codes → Type 0
unfolding is_clean
AllClean ss = all (all is_clean) ss ≡ true

join-IsClean : (ss : List Codes) → AllClean ss → IsClean (join_codes b'.' ss)
unfolding AllClean join_codes IsClean is_clean
join-IsClean [] h = refl
join-IsClean (s ∷ []) h = ground (arith, h)
join-IsClean (s ∷ t ∷ ss) h =
    ground
      (arith, h, all-append is_clean s (b'.' ∷ join_codes b'.' (t ∷ ss)), join-IsClean (t ∷ ss))

nil-AllClean : AllClean []
unfolding AllClean
nil-AllClean = refl

cons-AllClean : (s : Codes) (ss : List Codes) → IsClean s → AllClean ss → AllClean (s ∷ ss)
unfolding IsClean AllClean
cons-AllClean s ss h k = ground (arith, h, k)

quote_all-AllClean : (ss qs : List Codes) → quote_all ss ≡ ok qs → AllClean qs
unfolding quote_all
quote_all-AllClean [] qs h = subst AllClean (ok-injective h) nil-AllClean
quote_all-AllClean (s ∷ ss) qs h =
    let (q, h1, r1) = >>=-eq-ok (quote_identifier s) _ h in
    let (rest, h2, r2) = >>=-eq-ok (quote_all ss) _ r1 in
    subst AllClean (ok-injective r2)
      (cons-AllClean q rest (quote-IsClean s q h1) (quote_all-AllClean ss rest h2))

pub render_relation-IsClean : (relation r : Codes) → render_relation relation ≡ ok r → IsClean r
unfolding render_relation
render_relation-IsClean relation r h =
    let (normalized, h1, r1) = >>=-eq-ok (normalize_relation relation) _ h in
    let (parts, h2, r2) = >>=-eq-ok (quote_all (split_on b'.' normalized)) _ r1 in
    subst IsClean (ok-injective r2)
      (join-IsClean parts (quote_all-AllClean (split_on b'.' normalized) parts h2))

digits-IsClean : (fuel n : ℕ) (tail : Codes) → IsClean tail → IsClean (digits fuel n tail)
unfolding digits IsClean is_clean
digits-IsClean zero n tail h = h
digits-IsClean (suc fuel) n tail h =
    ground (arith, h, mod_fact n 9, digits-IsClean fuel (n / 10) ((48 + n % 10) ∷ tail))

number-IsClean : (n : ℕ) → IsClean (number_text n)
unfolding number_text IsClean
number-IsClean n = digits-IsClean (suc n) n [] refl

parameters-IsClean : (ns : List ℕ) → IsClean (parameters_text ns)
unfolding parameters_text IsClean is_clean
parameters-IsClean [] = refl
parameters-IsClean (n ∷ []) = number-IsClean n
parameters-IsClean (n ∷ m ∷ ns) =
    append-IsClean (number_text n ++ codes ", ") (parameters_text (m ∷ ns))
      (append-IsClean (number_text n) (codes ", ") (number-IsClean n) refl)
      (parameters-IsClean (m ∷ ns))

elem-IsClean : (s : Codes) (ss : List Codes) → elem_codes s ss ≡ true → AllClean ss → IsClean s
unfolding elem_codes AllClean IsClean
elem-IsClean s [] h k = absurd (false≢true h)
elem-IsClean s (t ∷ ss) h k = elim (Bool-cases (s =c= t)) [
  | inl same ↦ subst IsClean (sym ((=c=_iff s t).0 same)) (ground (arith, k))
  | inr differs ↦ elem-IsClean s ss (ground (arith, h, differs)) (ground (arith, k))
]

supported-AllClean : AllClean supported_try_cast_types
unfolding AllClean is_clean
supported-AllClean = refl

base-IsClean : (base : Codes) → IsClean base → IsClean (base_text base)
unfolding IsClean is_clean
base-IsClean base h = ground (arith, h)

-- A text made of clean parts is clean.
text-IsClean : (ss : List Codes) → AllClean ss → IsClean (text_of ss)
unfolding text_of AllClean IsClean
text-IsClean [] h = refl
text-IsClean (s ∷ ss) h = ground (arith, h, all-append is_clean s (text_of ss), text-IsClean ss)

sized-AllClean :
    (base parameters : Codes)
    → IsClean base
    → IsClean parameters
    → AllClean (base ∷ codes "(" ∷ parameters ∷ codes ")" ∷ [])
unfolding AllClean IsClean is_clean
sized-AllClean base parameters h k = ground (arith, h, k)

sized_text-IsClean :
    (base parameters : Codes)
    → IsClean base
    → IsClean parameters
    → IsClean (text_of (base ∷ codes "(" ∷ parameters ∷ codes ")" ∷ []))
sized_text-IsClean base parameters h k =
    text-IsClean (base ∷ codes "(" ∷ parameters ∷ codes ")" ∷ [])
      (sized-AllClean base parameters h k)

type_text-IsClean : (t : SqlType) (text : Codes) → type_text t ≡ ok text → IsClean text
unfolding type_text
type_text-IsClean t text h = elim (Bool-cases (elem_codes t.base supported_try_cast_types)) [
  | inl supported ↦
      let base = base-IsClean t.base (elem-IsClean t.base _ supported supported-AllClean) in
      elim (Bool-cases (is_empty t.parameters)) [
        | inl bare ↦ subst IsClean (ok-injective (rw (supported, bare) at h)) base
        | inr sized ↦ subst IsClean (ok-injective (rw (supported, sized) at h)) (
            sized_text-IsClean (base_text t.base) (parameters_text t.parameters) base
              (parameters-IsClean t.parameters))
      ]
  | inr unsupported ↦ ground (arith, h, unsupported)
]

of_type :
    (r : Result TypeError SqlType) (text : Codes)
    → elim r [ err e ↦ err type_error | ok t ↦ type_text t ] ≡ ok text
    → IsClean text
of_type (ok t) text h = type_text-IsClean t text h
of_type (err e) text h = cc h

pub render_try_cast_type-IsClean :
    (value : String) (text : Codes) → render_try_cast_type value ≡ ok text → IsClean text
unfolding render_try_cast_type
render_try_cast_type-IsClean value text h = of_type (canonical_sql_type value) text h
