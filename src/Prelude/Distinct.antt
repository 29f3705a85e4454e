-- ===== src/Prelude/Distinct.antt =====
-- `distinct` keeps one copy of every text and loses none.
use Prim.Native.Nat.{suc, ◌≤◌}
use Prim.Native.String.{String}
use mathlib.Core.Path.{◌≡◌, refl}
use mathlib.Core.Bool.{Bool, true, false, not}
use mathlib.Core.List.{List, [], ◌∷◌}
use native.Mathlib.Omega.{arith}
use changesafe.Prelude.Tests.{◌=s=◌, =s=_iff}
use changesafe.Prelude.Lists.{length, filter}
use changesafe.Prelude.Text.{elem, is_distinct, distinct}

elem-filter-false :
    (p : String → Bool) (s : String) (l : List String)
    → elem s l ≡ false
    → elem s (filter p l) ≡ false
unfolding elem
elem-filter-false p s [] h = refl
elem-filter-false p s (t ∷ l) h = ground (arith, elem-filter-false p s l)

is_distinct-filter :
    (p : String → Bool) (l : List String) → is_distinct l ≡ true → is_distinct (filter p l) ≡ true
unfolding is_distinct
is_distinct-filter p [] h = refl
is_distinct-filter p (t ∷ l) h = ground (arith, is_distinct-filter p l, elem-filter-false p t l)

abbrev other_than : String → String → Bool
other_than s t = not (t =s= s)

elem-other_than : (s : String) (l : List String) → elem s (filter (other_than s) l) ≡ false
unfolding elem
elem-other_than s [] = refl
elem-other_than s (t ∷ l) = ground (arith, elem-other_than s l, =s=_iff s t, =s=_iff t s)

-- What `distinct` gives has no text twice.
pub distinct-is_distinct : (l : List String) → is_distinct (distinct l) ≡ true
unfolding distinct is_distinct
distinct-is_distinct [] = refl
distinct-is_distinct (s ∷ l) = ground (
  arith,
  elem-other_than s (distinct l),
  is_distinct-filter (other_than s) (distinct l),
  distinct-is_distinct l,
)

elem-filter_other :
    (s t : String) (l : List String)
    → (t =s= s) ≡ false
    → elem t (filter (other_than s) l) ≡ elem t l
unfolding elem
elem-filter_other s t [] h = refl
elem-filter_other s t (u ∷ l) h =
    ground (arith, elem-filter_other s t l, =s=_iff t s, =s=_iff u s, =s=_iff t u)

-- A text is in `distinct l` exactly when it is in `l`.
pub elem-distinct : (t : String) (l : List String) → elem t (distinct l) ≡ elem t l
unfolding elem distinct
elem-distinct t [] = refl
elem-distinct t (s ∷ l) = ground (arith, elem-filter_other s t (distinct l), elem-distinct t l)

filter_other-absent :
    (s : String) (l : List String) → elem s l ≡ false → filter (other_than s) l ≡ l
unfolding elem
filter_other-absent s [] h = refl
filter_other-absent s (t ∷ l) h = ground (arith, filter_other-absent s l, =s=_iff s t, =s=_iff t s)

length-filter_other :
    (s : String) (l : List String)
    → is_distinct l ≡ true
    → length l ≤ suc (length (filter (other_than s) l))
unfolding is_distinct
length-filter_other s [] h = omega arith
length-filter_other s (t ∷ l) h =
    ground (arith, length-filter_other s l, filter_other-absent s l, =s=_iff t s)

-- One more text does not make the distinct texts fewer.
pub length-distinct-cons :
    (s : String) (l : List String) → length (distinct l) ≤ length (distinct (s ∷ l))
unfolding distinct
length-distinct-cons s l = length-filter_other s (distinct l) (distinct-is_distinct l)
