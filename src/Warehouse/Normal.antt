-- ===== src/Warehouse/Normal.antt =====
-- Identifiers and relations in their normal form: upper case, and read again as they were written.
use changesafe.Prelude.{
  ◌≡◌, refl, sym, ap, ◌∙◌, subst, ℕ, Bool, true, not, ◌||◌, List, [], ◌∷◌, ◌++◌, Codes, upper,
  upper_code, ◌=c=◌, =c=_iff, all, map, length, ◌==◌, if◌then◌else◌, Bool-cases, inl, inr, ok, err,
  ok-injective, arith,
}
use changesafe.SqlTypes.Parts.{is_digit}
use changesafe.Domain.Change.{is_identifier, is_letter}
use changesafe.Domain.Equal.{same_list}
use changesafe.Config.Settings.{split_on, join_codes}
use changesafe.Warehouse.Text.{
  unsafe_query, Checked, quoted, quote_identifier, is_three_part, normalize_relation,
}
use changesafe.Warehouse.ReadOnly.{upper-once}

pub =c=_refl : (s : Codes) → (s =c= s) ≡ true
=c=_refl s = (=c=_iff s s).1 refl

pub same_list_refl : (xs : List Codes) → same_list ◌=c=◌ xs xs ≡ true
unfolding same_list
same_list_refl [] = refl
same_list_refl (x ∷ xs) = ground (arith, =c=_refl x, same_list_refl xs)

-- a character of an identifier, after its first
is_part : ℕ → Bool
unfolding is_letter is_digit
is_part d = is_letter d || is_digit d || d == b'_'

part-upper : (c : ℕ) → is_part c ≡ true → is_part (upper_code c) ≡ true
unfolding is_part is_letter is_digit upper_code
part-upper c h = ground (arith, h)

parts-upper : (s : Codes) → all is_part s ≡ true → all is_part (upper s) ≡ true
unfolding upper
parts-upper [] h = refl
parts-upper (c ∷ s) h = ground (arith, h, part-upper c, parts-upper s)

pub identifier-upper : (s : Codes) → is_identifier s ≡ true → is_identifier (upper s) ≡ true
unfolding is_identifier upper is_letter is_digit is_part upper_code
identifier-upper [] h = ground (arith, h)
identifier-upper (c ∷ s) h = ground (arith, h, parts-upper s)

pub quote-identifier : (s : Codes) → is_identifier s ≡ true → quote_identifier s ≡ ok (quoted s)
unfolding quote_identifier
quote-identifier s h = ground (arith, h)

pub quote-upper : (s : Codes) → is_identifier s ≡ true → quote_identifier (upper s) ≡ ok (quoted s)
quote-upper s h =
    quote-identifier (upper s) (identifier-upper s h)
    ∙ ap (λ t. ok (34 ∷ t ++ 34 ∷ [])) (upper-once s)

-- an identifier has no dot
no_dot : Codes → Bool
no_dot s = all (λ c. not (c == b'.')) s

split-none : (s : Codes) → no_dot s ≡ true → split_on b'.' s ≡ s ∷ []
unfolding no_dot split_on
split-none [] h = refl
split-none (c ∷ s) h = ground (arith, h, split-none s)

split-join : (s t : Codes) → no_dot s ≡ true → split_on b'.' (s ++ b'.' ∷ t) ≡ s ∷ split_on b'.' t
unfolding no_dot split_on
split-join [] t h = refl
split-join (c ∷ s) t h = ground (arith, h, split-join s t)

part-no_dot : (c : ℕ) → is_part c ≡ true → not (c == b'.') ≡ true
unfolding is_part is_letter is_digit
part-no_dot c h = ground (arith, h)

parts-no_dot : (s : Codes) → all is_part s ≡ true → no_dot s ≡ true
unfolding no_dot
parts-no_dot [] h = refl
parts-no_dot (c ∷ s) h = ground (arith, h, part-no_dot c, parts-no_dot s)

identifier-no_dot : (s : Codes) → is_identifier s ≡ true → no_dot s ≡ true
unfolding is_identifier no_dot is_letter is_digit is_part
identifier-no_dot [] h = refl
identifier-no_dot (c ∷ s) h = ground (arith, h, parts-no_dot s)

split-joined :
    (s : Codes) (parts : List Codes)
    → all is_identifier (s ∷ parts) ≡ true
    → split_on b'.' (join_codes b'.' (s ∷ parts)) ≡ s ∷ parts
unfolding join_codes
split-joined s [] h = split-none s (identifier-no_dot s (ground (arith, h)))
split-joined s (t ∷ parts) h =
    split-join s (join_codes b'.' (t ∷ parts)) (identifier-no_dot s (ground (arith, h)))
    ∙ ap (λ rest. s ∷ rest) (split-joined t parts (ground (arith, h)))

upper-identifiers :
    (parts : List Codes)
    → all is_identifier parts ≡ true
    → all is_identifier (map upper parts) ≡ true
upper-identifiers [] h = refl
upper-identifiers (s ∷ parts) h = ground (arith, h, identifier-upper s, upper-identifiers parts)

map-upper-once : (parts : List Codes) → map upper (map upper parts) ≡ map upper parts
map-upper-once [] = refl
map-upper-once (s ∷ parts) =
    ap (λ t. t ∷ map upper (map upper parts)) (upper-once s)
    ∙ ap (λ rest. upper s ∷ rest) (map-upper-once parts)

abbrev relation_of_parts : List Codes → Checked
relation_of_parts parts =
    if is_three_part parts then ok (join_codes b'.' (map upper parts)) else err unsafe_query

abbrev choose : Bool → List Codes → Checked
choose b parts = if b then ok (join_codes b'.' (map upper parts)) else err unsafe_query

length-map : (parts : List Codes) → length (map upper parts) ≡ length parts
length-map [] = refl
length-map (s ∷ parts) = omega (arith, length-map parts)

three-upper :
    (parts : List Codes) → is_three_part parts ≡ true → is_three_part (map upper parts) ≡ true
three-upper parts h = ground (arith, h, length-map parts, upper-identifiers parts)

normalized-once :
    (parts : List Codes) (n : Codes)
    → relation_of_parts parts ≡ ok n
    → relation_of_parts (split_on b'.' n) ≡ ok n
normalized-once [] n h = ground (arith, h)
normalized-once (a ∷ parts) n h = elim (Bool-cases (is_three_part (a ∷ parts))) [
  | inl three ↦
      let whole = a ∷ parts in
      let ids = upper-identifiers whole (ground (arith, three)) in
      let same = ok-injective (sym (ap (λ b. choose b whole) three) ∙ h) in
      let splits = split-joined (upper a) (map upper parts) ids in
      subst (λ m. relation_of_parts (split_on b'.' m) ≡ ok m) same
        (ap relation_of_parts splits
          ∙ ap (λ b. choose b (map upper whole)) (three-upper whole three)
          ∙ ap (λ ps. ok (join_codes b'.' ps)) (map-upper-once whole))
  | inr other ↦ ground (arith, h, other)
]

-- The normalised relation is its own normal form.
pub normalize-once :
    (relation n : Codes) → normalize_relation relation ≡ ok n → normalize_relation n ≡ ok n
unfolding normalize_relation
normalize-once relation n h = normalized-once (split_on b'.' relation) n h
