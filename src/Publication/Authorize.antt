-- ===== src/Publication/Authorize.antt =====
-- `_authorize` of service.py: a live publication needs the owner's token and a target of the allowlist.
use changesafe.Prelude.{
  Bool, true, false, ◌&&◌, ◌||◌, not, Option, none, some, List, [], ◌∷◌, String, ◌=s=◌, Codes,
  codes, ◌=c=◌, starts_with, ltb, ◌==◌, all, any, map, filter, is_empty, if◌then◌else◌, Result, ok,
  err,
}
use changesafe.SqlTypes.Parts.{is_space}
use changesafe.Config.Settings.{Settings, split_on}

pub data Denial : Type 0 where
  token_rejected outside_allowlist token_not_ascii : Denial

-- `text.lstrip()` and `text.strip()`
unfoldable pub lstrip : Codes → Codes
unfolding is_space
lstrip [] = []
lstrip (c ∷ s) = let rest = lstrip s in if is_space c then rest else c ∷ s

unfoldable pub rstrip : Codes → Codes
unfolding is_space
rstrip [] = []
rstrip (c ∷ s) = let rest = rstrip s in if is_space c && is_empty rest then [] else c ∷ rest

unfoldable pub strip : Codes → Codes
unfolding lstrip rstrip
strip s = rstrip (lstrip s)

-- the item without a final `*`, if it has one
unfoldable pub before_star : Codes → Option Codes
before_star [] = none
before_star (c ∷ []) = if c == b'*' then some [] else none
before_star (c ∷ d ∷ s) = elim (before_star (d ∷ s)) [ none ↦ none | some p ↦ some (c ∷ p) ]

abbrev pub matches_prefix : Codes → Option Codes → Bool
matches_prefix urn none = false
matches_prefix urn (some p) = starts_with urn p

unfoldable pub matches_item : Codes → Codes → Bool
unfolding before_star ◌=c=◌ starts_with
matches_item urn item = urn =c= item || matches_prefix urn (before_star item)

-- `[item.strip() for item in allowlist.split(";") if item.strip()]`
unfoldable pub allowlist : Settings → List Codes
unfolding split_on strip
allowlist s =
    filter (λ item. not (is_empty item)) (map strip (split_on b';' (codes s.demo_urn_allowlist)))

unfoldable pub is_allowlisted : Settings → String → Bool
unfolding matches_item allowlist
is_allowlisted s urn = any (matches_item (codes urn)) (allowlist s)

abbrev pub is_ascii : String → Bool
is_ascii s = all (λ c. ltb c 128) (codes s)

-- `secrets.compare_digest`, which raises `TypeError` on a text that is not ASCII
unfoldable pub compare_digest : String → String → Result Denial Bool
compare_digest a b = if is_ascii a && is_ascii b then ok (a =s= b) else err token_not_ascii

-- `token_matches`
unfoldable pub token_matches : Option String → Option String → Result Denial Bool
unfolding compare_digest
token_matches (some configured) (some supplied) = compare_digest supplied configured
token_matches _ _ = ok false

abbrev pub after_token : Settings → String → Result Denial Bool → Result Denial (Unit {0})
after_token s urn (err d) = err d
after_token s urn (ok false) = err token_rejected
after_token s urn (ok true) = if is_allowlisted s urn then ok tt else err outside_allowlist

unfoldable pub authorize : Settings → Option String → String → Bool → Result Denial (Unit {0})
unfolding token_matches is_allowlisted
authorize s supplied urn false = ok tt
authorize s supplied urn true = after_token s urn (token_matches s.changesafe_admin_token supplied)
