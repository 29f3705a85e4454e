-- ===== src/SqlTypes/Parts.antt =====
-- `TYPE_EXPRESSION` and `_normalized_parts` of sql_types.py, over code points. A base cannot hold
-- an opening bracket, so the expression's lazy base ends at the first one.
use changesafe.Prelude.{
  ℕ, ◌+◌, ◌*◌, ◌-◌, Bool, false, not, ◌&&◌, ◌||◌, Option, none, some, List, [], ◌∷◌, ◌++◌, String,
  Codes, codes, upper, leb, ◌==◌, all, is_empty, if◌then◌else◌, Result, ok, err,
}

pub data TypeError : Type 0 where
  syntax too_many_parameters no_parameters out_of_range unsupported unpack : TypeError

-- ASCII white space, as `str.split` and `\s` read it
unfoldable pub is_space : ℕ → Bool
is_space c = leb 9 c && leb c 13 || leb 28 c && leb c 32

unfoldable pub is_digit : ℕ → Bool
is_digit c = leb b'0' c && leb c b'9'

is_upper : ℕ → Bool
is_upper c = leb b'A' c && leb c b'Z'

-- `str.split()`; `word` is the word that is being read
split : Codes → Codes → List Codes
unfolding is_space
split word [] = if is_empty word then [] else word ∷ []
split word (c ∷ s) =
    let rest = split (if is_space c then [] else word ++ c ∷ []) s in
    if is_space c && not (is_empty word) then word ∷ rest else rest

-- `" ".join(words)`
join : List Codes → Codes
join [] = []
join (w ∷ []) = w
join (w ∷ v ∷ ws) = w ++ b' ' ∷ join (v ∷ ws)

normalized : String → Codes
unfolding split join
normalized value = join (split [] (upper (codes value)))

-- the text up to the first opening bracket
unfoldable pub base_of : Codes → Codes
base_of [] = []
base_of (c ∷ s) = let rest = base_of s in if c == b'(' then [] else c ∷ rest

-- the text from the first opening bracket on
unfoldable pub group_of : Codes → Codes
group_of [] = []
group_of (c ∷ s) = let rest = group_of s in if c == b'(' then c ∷ s else rest

-- `[A-Z][A-Z0-9_ ]*?`
is_base : Codes → Bool
unfolding is_upper is_digit
is_base [] = false
is_base (c ∷ s) = is_upper c && all (λ d. is_upper d || is_digit d || d == b'_' || d == b' ') s

pub skip_spaces : Codes → Codes
unfolding is_space
skip_spaces [] = []
skip_spaces (c ∷ s) = let rest = skip_spaces s in if is_space c then rest else c ∷ s

-- `int(digits)`, and the text behind the digits
pub digits_from : ℕ → Codes → ℕ × Codes
unfolding is_digit
digits_from n [] = (n, [])
digits_from n (c ∷ s) =
    let rest = digits_from (n * 10 + (c - b'0')) s in if is_digit c then rest else (n, c ∷ s)

-- `\s*(\d+)\s*`
pub number_at : Codes → Option (ℕ × Codes)
unfolding digits_from skip_spaces
number_at s = elim (skip_spaces s) [
  | [] ↦ none
  | c ∷ t ↦
      if is_digit c then (let (n, u) = digits_from 0 (c ∷ t) in some (n, skip_spaces u)) else none
]

-- `\)$`
close : List ℕ → Codes → Option (List ℕ)
close parameters (c ∷ []) = if c == b')' then some parameters else none
close parameters _ = none

second_parameter : ℕ → Option (ℕ × Codes) → Option (List ℕ)
unfolding close
second_parameter first none = none
second_parameter first (some (n, s)) = close (first ∷ n ∷ []) s

-- `(?:\s*,\s*(\d+))?\s*\)`
after_first : Option (ℕ × Codes) → Option (List ℕ)
unfolding close second_parameter number_at
after_first none = none
after_first (some (n, [])) = none
after_first (some (n, c ∷ s)) =
    if c == b',' then second_parameter n (number_at s) else close (n ∷ []) (c ∷ s)

-- the optional bracketed group
unfoldable pub parameters_of : Codes → Option (List ℕ)
unfolding after_first number_at
parameters_of [] = some []
parameters_of (c ∷ s) = if c == b'(' then after_first (number_at s) else none

parts_of : Codes → Option (List ℕ) → Result TypeError (Codes × List ℕ)
parts_of base none = err syntax
parts_of base (some parameters) = ok (base, parameters)

unfoldable pub normalized_parts : String → Result TypeError (Codes × List ℕ)
unfolding normalized base_of group_of is_base parameters_of parts_of upper
normalized_parts value =
    let text = normalized value in
    if is_base (base_of text)
    then parts_of (base_of text) (parameters_of (group_of text))
    else err syntax
