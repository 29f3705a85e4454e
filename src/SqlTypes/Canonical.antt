-- ===== src/SqlTypes/Canonical.antt =====
-- The form of the types that `canonical_sql_type` gives.
use changesafe.Prelude.{
  ℕ, ◌≤◌, ◌≡◌, refl, true, false, List, [], ◌∷◌, String, Codes, codes, elem_codes, ◌=c=◌, arith, ok,
  >>=-eq-ok, err-ne-ok, Bool-cases, inl, inr,
}
use changesafe.SqlTypes.Parts.{normalized_parts}
use changesafe.SqlTypes.Canonicalize.{
  Family, SqlType, binary_default_length, binary_max_length, canonical_in, canonical_number,
  canonical_of, canonical_sized, canonical_sql_type, canonical_timestamp, family, number_type,
  parameterless_types, plain_type, sized_type, timestamp_base, timestamp_type, timestamp_types,
  varchar_default_length, varchar_max_length, integers, numbers, floats, chars, varchars, binaries,
  timestamps, parameterless, other,
}

-- Each family of canonical types, with the ranges of its parameters.
pub data IsCanonical (t : SqlType) : Type 0 where
  number :
      (precision scale : ℕ)
      → t ≡ record { base = codes "NUMBER"; parameters = precision ∷ scale ∷ [] }
      → 1 ≤ precision
      → precision ≤ 38
      → scale ≤ precision
      → scale ≤ 37
      → IsCanonical t
  float : t ≡ record { base = codes "FLOAT"; parameters = [] } → IsCanonical t
  varchar :
      (n : ℕ)
      → t ≡ record { base = codes "VARCHAR"; parameters = n ∷ [] }
      → 1 ≤ n
      → n ≤ varchar_max_length
      → IsCanonical t
  binary :
      (n : ℕ)
      → t ≡ record { base = codes "BINARY"; parameters = n ∷ [] }
      → 1 ≤ n
      → n ≤ binary_max_length
      → IsCanonical t
  timestamp :
      (n : ℕ)
      → elem_codes t.base timestamp_types ≡ true
      → t.base =c= codes "DATETIME" ≡ false
      → t.parameters ≡ n ∷ []
      → n ≤ 9
      → IsCanonical t
  plain : elem_codes t.base parameterless_types ≡ true → t.parameters ≡ [] → IsCanonical t

canonical_number-IsCanonical :
    (ps : List ℕ) (t : SqlType) → canonical_number ps ≡ ok t → IsCanonical t
unfolding canonical_number number_type
canonical_number-IsCanonical [] t h =
    number 38 0 (ground arith) (omega arith) (omega arith) (omega arith) (omega arith)
canonical_number-IsCanonical (p ∷ []) t h =
    number p 0 (ground arith) (ground arith) (ground arith) (omega arith) (omega arith)
canonical_number-IsCanonical (p ∷ s ∷ []) t h =
    number p s (ground arith) (ground arith) (ground arith) (ground arith) (ground arith)
canonical_number-IsCanonical (p ∷ s ∷ x ∷ ps) t h = cc

canonical_varchar :
    (n : ℕ) (ps : List ℕ) (t : SqlType)
    → 1 ≤ n
    → n ≤ varchar_max_length
    → canonical_sized (codes "VARCHAR") varchar_max_length n ps ≡ ok t
    → IsCanonical t
unfolding canonical_sized sized_type
canonical_varchar n [] t l u h = varchar n (ground arith) l u
canonical_varchar n (m ∷ []) t l u h = varchar m (ground arith) (ground arith) (ground arith)
canonical_varchar n (m ∷ k ∷ ps) t l u h = cc

canonical_binary :
    (ps : List ℕ) (t : SqlType)
    → canonical_sized (codes "BINARY") binary_max_length binary_default_length ps ≡ ok t
    → IsCanonical t
unfolding canonical_sized sized_type
canonical_binary [] t h = binary binary_default_length (ground arith) (omega arith) (omega arith)
canonical_binary (m ∷ []) t h = binary m (ground arith) (ground arith) (ground arith)
canonical_binary (m ∷ k ∷ ps) t h = cc

-- The two facts about `timestamp_base` that its callers use.
timestamp_base_known :
    (base : Codes)
    → elem_codes base timestamp_types ≡ true
    → (elem_codes (timestamp_base base) timestamp_types ≡ true)
      × ((timestamp_base base =c= codes "DATETIME") ≡ false)
unfolding timestamp_base
timestamp_base_known base m = elim (Bool-cases (base =c= codes "DATETIME")) [
  | inl e ↦ rw e (unfold elem_codes ◌=c=◌ in (refl, refl))
  | inr e ↦ rw e (m, e)
]

timestamp_type-IsCanonical :
    (base : Codes) (n : ℕ) (t : SqlType)
    → elem_codes base timestamp_types ≡ true
    → timestamp_type base n ≡ ok t
    → IsCanonical t
unfolding timestamp_type
timestamp_type-IsCanonical base n t m h =
    let e : t ≡ record { base = timestamp_base base; parameters = n ∷ [] } = ground arith in
    let (known, renamed) = timestamp_base_known base m in
    timestamp n (rw e known) (rw e renamed) (rw e) (ground arith)

canonical_timestamp-IsCanonical :
    (base : Codes) (ps : List ℕ) (t : SqlType)
    → elem_codes base timestamp_types ≡ true
    → canonical_timestamp base ps ≡ ok t
    → IsCanonical t
unfolding canonical_timestamp
canonical_timestamp-IsCanonical base [] t m h = timestamp_type-IsCanonical base 9 t m h
canonical_timestamp-IsCanonical base (n ∷ []) t m h = timestamp_type-IsCanonical base n t m h
canonical_timestamp-IsCanonical base (n ∷ k ∷ ps) t m h = cc

plain_type-eq :
    (base : Codes) (result ps : List ℕ) (t : SqlType)
    → plain_type base result ps ≡ ok t
    → t ≡ record { base = base; parameters = result }
unfolding plain_type
plain_type-eq base result [] t h = ground arith
plain_type-eq base result (p ∷ ps) t h = cc

plain-IsCanonical :
    (base : Codes) (ps : List ℕ) (t : SqlType)
    → elem_codes base parameterless_types ≡ true
    → plain_type base [] ps ≡ ok t
    → IsCanonical t
plain-IsCanonical base ps t m h = let e = plain_type-eq base [] ps t h in plain (rw e m) (rw e)

-- What the tests behind a family say of the base.
abbrev Tested : Family → Codes → Type 0
Tested timestamps base = elem_codes base timestamp_types ≡ true
Tested parameterless base = elem_codes base parameterless_types ≡ true
Tested _ base = Unit

family-timestamps :
    (base : Codes) → family base ≡ timestamps → elem_codes base timestamp_types ≡ true
unfolding family
family-timestamps base h = ground arith

family-parameterless :
    (base : Codes) → family base ≡ parameterless → elem_codes base parameterless_types ≡ true
unfolding family
family-parameterless base h = ground arith

family-Tested : (base : Codes) (f : Family) → family base ≡ f → Tested f base
family-Tested base timestamps h = family-timestamps base h
family-Tested base parameterless h = family-parameterless base h
family-Tested base _ h = tt

canonical_in-IsCanonical :
    (f : Family) (base : Codes) (ps : List ℕ) (t : SqlType)
    → Tested f base
    → canonical_in f base ps ≡ ok t
    → IsCanonical t
unfolding canonical_in
canonical_in-IsCanonical integers base ps t m h =
    number 38 0 (plain_type-eq _ _ ps t h) (omega arith) (omega arith) (omega arith) (omega arith)
canonical_in-IsCanonical numbers base ps t m h = canonical_number-IsCanonical ps t h
canonical_in-IsCanonical floats base ps t m h = float (plain_type-eq _ _ ps t h)
canonical_in-IsCanonical chars base ps t m h =
    canonical_varchar 1 ps t (omega arith) (omega arith) h
canonical_in-IsCanonical varchars base ps t m h =
    canonical_varchar varchar_default_length ps t (omega arith) (omega arith) h
canonical_in-IsCanonical binaries base ps t m h = canonical_binary ps t h
canonical_in-IsCanonical timestamps base ps t m h = canonical_timestamp-IsCanonical base ps t m h
canonical_in-IsCanonical parameterless base ps t m h = plain-IsCanonical base ps t m h
canonical_in-IsCanonical other base ps t m h = absurd (err-ne-ok h)

-- Every type that is accepted comes out in canonical form, with its parameters in range.
pub canonical_sql_type-IsCanonical :
    (value : String) (t : SqlType) → canonical_sql_type value ≡ ok t → IsCanonical t
unfolding canonical_sql_type canonical_of
canonical_sql_type-IsCanonical value t h =
    let (parts, _, e) = >>=-eq-ok (normalized_parts value) _ h in
    canonical_in-IsCanonical (family parts.0) parts.0 parts.1 t (family-Tested parts.0 _ refl) e
