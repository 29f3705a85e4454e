-- ===== src/Prelude/Text.antt =====
-- Python's `str`: native texts where the code compares or joins whole texts, code points where it
-- walks them. Case mapping is that of ASCII; a code point above 127 is left as it is.
use Prim.Native.Nat.{ℕ, zero, suc, ◌+◌, ◌-◌, ◌/◌, ◌%◌}
use Prim.Native.Char.{code}
use Prim.Native.String.{String, ◌++◌ as append}
use mathlib.Core.Path.{◌≡◌}
use mathlib.Core.Logic.{◌↔◌}
use mathlib.Core.Bool.{Bool, true, false, ◌&&◌, ◌||◌, not}
use mathlib.Core.List.{List, [], ◌∷◌, map}
use native.Mathlib.Omega.{arith}
use changesafe.Prelude.Tests.{ltb, leb, ◌==◌, ◌=s=◌, if◌then◌else◌}
use changesafe.Prelude.Lists.{filter}

abbrev pub Codes : Type 0
Codes = List ℕ

abbrev pub codes : String → Codes
codes String.[] = []
codes (String.◌∷◌ c s) = code c ∷ codes s

infix 50 ◌=c=◌
unfoldable pub ◌=c=◌ : Codes → Codes → Bool
[] =c= [] = true
[] =c= (y ∷ ys) = false
(x ∷ xs) =c= [] = false
(x ∷ xs) =c= (y ∷ ys) = x == y && xs =c= ys

pub =c=_iff : (s t : Codes) → ((s =c= t) ≡ true) ↔ (s ≡ t)
unfolding ◌=c=◌
=c=_iff [] [] = ground arith
=c=_iff [] (y ∷ ys) = ground arith
=c=_iff (x ∷ xs) [] = ground arith
=c=_iff (x ∷ xs) (y ∷ ys) = ground (arith, =c=_iff xs ys)

unfoldable pub lower_code : ℕ → ℕ
lower_code c = if leb b'A' c && leb c b'Z' then c + 32 else c

unfoldable pub upper_code : ℕ → ℕ
upper_code c = if leb b'a' c && leb c b'z' then c - 32 else c

-- `str.lower()` and `str.casefold()`; on ASCII they agree.
unfoldable pub casefold : String → Codes
unfolding lower_code
casefold s = map lower_code (codes s)

-- `str.upper()`
unfoldable pub upper : Codes → Codes
unfolding upper_code
upper = map upper_code

unfoldable pub starts_with : Codes → Codes → Bool
starts_with s [] = true
starts_with [] (c ∷ prefix) = false
starts_with (d ∷ s) (c ∷ prefix) = d == c && starts_with s prefix

-- `part in text`
unfoldable pub contains : Codes → Codes → Bool
unfolding starts_with
contains part [] = starts_with [] part
contains part (c ∷ s) = starts_with (c ∷ s) part || contains part s

-- `value in {…}` over texts
unfoldable pub elem : String → List String → Bool
elem s [] = false
elem s (t ∷ ts) = s =s= t || elem s ts

unfoldable pub elem_codes : Codes → List Codes → Bool
elem_codes s [] = false
elem_codes s (t ∷ ts) = s =c= t || elem_codes s ts

-- `len(values) == len(set(values))`
unfoldable pub is_distinct : List String → Bool
unfolding elem
is_distinct [] = true
is_distinct (s ∷ ss) = not (elem s ss) && is_distinct ss

unfoldable pub is_distinct_codes : List Codes → Bool
unfolding elem_codes
is_distinct_codes [] = true
is_distinct_codes (s ∷ ss) = not (elem_codes s ss) && is_distinct_codes ss

-- `bool(text)`
abbrev pub is_truthy : String → Bool
is_truthy String.[] = false
is_truthy (String.◌∷◌ c s) = true

-- The distinct texts, each at its first place: `dict.fromkeys(…)`, and of a set its size.
unfoldable pub distinct : List String → List String
distinct [] = []
distinct (s ∷ ss) = s ∷ filter (λ t. not (t =s= s)) (distinct ss)

-- A formatted text, from its parts.
unfoldable pub format : List String → String
format [] = ""
format (s ∷ ss) = append s (format ss)

digit : ℕ → String
digit d =
    if d == 0
    then "0"
    else if d == 1
    then "1"
    else if d == 2
    then "2"
    else if d == 3
    then "3"
    else if d == 4
    then "4"
    else if d == 5
    then "5"
    else if d == 6
    then "6"
    else if d == 7
    then "7"
    else if d == 8
    then "8"
    else "9"

decimal : ℕ → ℕ → String → String
decimal zero n tail = tail
decimal (suc fuel) n tail =
    let more = decimal fuel (n / 10) (append (digit (n % 10)) tail) in
    if ltb n 10 then append (digit n) tail else more

-- `str(n)`; `n + 1` rounds are more than it has digits
unfoldable pub show : ℕ → String
unfolding digit decimal
show n = decimal (suc n) n ""
