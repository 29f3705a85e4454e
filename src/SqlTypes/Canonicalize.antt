-- ===== src/SqlTypes/Canonicalize.antt =====
-- `canonical_sql_type` of sql_types.py: the types it accepts and the form it gives them.
use changesafe.Prelude.{
  ℕ, ◌&&◌, List, [], ◌∷◌, map, String, Codes, codes, elem_codes, ◌=c=◌, leb, min, if◌then◌else◌,
  Result, ok, err, ◌>>=◌,
}
use changesafe.SqlTypes.Parts.{
  TypeError, too_many_parameters, no_parameters, out_of_range, unsupported, normalized_parts,
}

pub record SqlType : Type 0 where
  pub base : Codes
  pub parameters : List ℕ

abbrev pub number_types : List Codes
number_types = map codes ("NUMBER" ∷ "DEC" ∷ "DECIMAL" ∷ "NUMERIC" ∷ [])

abbrev pub integer_types : List Codes
integer_types = map codes ("BIGINT" ∷ "BYTEINT" ∷ "INT" ∷ "INTEGER" ∷ "SMALLINT" ∷ "TINYINT" ∷ [])

abbrev pub float_types : List Codes
float_types =
    map codes ("DOUBLE" ∷ "DOUBLE PRECISION" ∷ "FLOAT" ∷ "FLOAT4" ∷ "FLOAT8" ∷ "REAL" ∷ [])

abbrev pub char_types : List Codes
char_types =
    map codes ("CHAR" ∷ "CHARACTER" ∷ "NCHAR" ∷ "NATIONAL CHAR" ∷ "NATIONAL CHARACTER" ∷ [])

abbrev pub varchar_types : List Codes
varchar_types = map codes (
    "CHAR VARYING" ∷ "CHARACTER VARYING" ∷ "NCHAR VARYING" ∷ "NATIONAL CHAR VARYING"
    ∷ "NATIONAL CHARACTER VARYING" ∷ "NVARCHAR" ∷ "NVARCHAR2" ∷ "STRING" ∷ "TEXT" ∷ "VARCHAR"
    ∷ "VARCHAR2" ∷ [])

abbrev pub binary_types : List Codes
binary_types = map codes ("BINARY" ∷ "VARBINARY" ∷ [])

abbrev pub timestamp_types : List Codes
timestamp_types =
    map codes
      ("DATETIME" ∷ "TIME" ∷ "TIMESTAMP" ∷ "TIMESTAMP_LTZ" ∷ "TIMESTAMP_NTZ" ∷ "TIMESTAMP_TZ" ∷ [])

abbrev pub parameterless_types : List Codes
parameterless_types = map codes (
    "ARRAY" ∷ "BOOLEAN" ∷ "DATE" ∷ "DECFLOAT" ∷ "GEOGRAPHY" ∷ "GEOMETRY" ∷ "OBJECT" ∷ "UUID"
    ∷ "VARIANT" ∷ [])

abbrev pub varchar_default_length : ℕ
varchar_default_length = 16_777_216

abbrev pub varchar_max_length : ℕ
varchar_max_length = 134_217_728

abbrev pub binary_default_length : ℕ
binary_default_length = 8_388_608

abbrev pub binary_max_length : ℕ
binary_max_length = 67_108_864

abbrev pub Canonicalized : Type 0
Canonicalized = Result TypeError SqlType

-- `1 <= precision <= 38` and `0 <= scale <= min(precision, 37)`
unfoldable pub number_type : ℕ → ℕ → Canonicalized
number_type precision scale =
    if leb 1 precision && leb precision 38
    then (if leb scale (min precision 37)
        then ok (record { base = codes "NUMBER"; parameters = precision ∷ scale ∷ [] })
        else err out_of_range)
    else err out_of_range

unfoldable pub canonical_number : List ℕ → Canonicalized
unfolding number_type
canonical_number [] = number_type 38 0
canonical_number (precision ∷ []) = number_type precision 0
canonical_number (precision ∷ scale ∷ []) = number_type precision scale
canonical_number _ = err too_many_parameters

-- the branches of texts and of binaries: one length between 1 and a maximum
unfoldable pub sized_type : Codes → ℕ → ℕ → Canonicalized
sized_type base most n =
    if leb 1 n && leb n most
    then ok (record { base = base; parameters = n ∷ [] })
    else err out_of_range

unfoldable pub canonical_sized : Codes → ℕ → ℕ → List ℕ → Canonicalized
unfolding sized_type
canonical_sized base most default [] = sized_type base most default
canonical_sized base most default (n ∷ []) = sized_type base most n
canonical_sized base most default _ = err too_many_parameters

unfoldable pub timestamp_base : Codes → Codes
timestamp_base raw_base = if raw_base =c= codes "DATETIME" then codes "TIMESTAMP_NTZ" else raw_base

unfoldable pub timestamp_type : Codes → ℕ → Canonicalized
unfolding timestamp_base
timestamp_type raw_base n =
    if leb n 9
    then ok (record { base = timestamp_base raw_base; parameters = n ∷ [] })
    else err out_of_range

unfoldable pub canonical_timestamp : Codes → List ℕ → Canonicalized
unfolding timestamp_type
canonical_timestamp raw_base [] = timestamp_type raw_base 9
canonical_timestamp raw_base (n ∷ []) = timestamp_type raw_base n
canonical_timestamp raw_base _ = err too_many_parameters

-- a type that takes no parameters
unfoldable pub plain_type : Codes → List ℕ → List ℕ → Canonicalized
plain_type base result [] = ok (record { base = base; parameters = result })
plain_type base result (_ ∷ _) = err no_parameters

pub data Family : Type 0 where
  integers numbers floats chars varchars binaries timestamps parameterless other : Family

-- the chain of tests on `raw_base`, in the source's order
unfoldable pub family : Codes → Family
family raw_base =
    if elem_codes raw_base integer_types
    then integers
    else if elem_codes raw_base number_types
    then numbers
    else if elem_codes raw_base float_types
    then floats
    else if elem_codes raw_base char_types
    then chars
    else if elem_codes raw_base varchar_types
    then varchars
    else if elem_codes raw_base binary_types
    then binaries
    else if elem_codes raw_base timestamp_types
    then timestamps
    else if elem_codes raw_base parameterless_types
    then parameterless
    else other

-- the branch behind each test
unfoldable pub canonical_in : Family → Codes → List ℕ → Canonicalized
unfolding canonical_number canonical_sized canonical_timestamp plain_type
canonical_in integers raw_base ps = plain_type (codes "NUMBER") (38 ∷ 0 ∷ []) ps
canonical_in numbers raw_base ps = canonical_number ps
canonical_in floats raw_base ps = plain_type (codes "FLOAT") [] ps
canonical_in chars raw_base ps = canonical_sized (codes "VARCHAR") varchar_max_length 1 ps
canonical_in varchars raw_base ps =
    canonical_sized (codes "VARCHAR") varchar_max_length varchar_default_length ps
canonical_in binaries raw_base ps =
    canonical_sized (codes "BINARY") binary_max_length binary_default_length ps
canonical_in timestamps raw_base ps = canonical_timestamp raw_base ps
canonical_in parameterless raw_base ps = plain_type raw_base [] ps
canonical_in other raw_base ps = err unsupported

unfoldable pub canonical_of : Codes → List ℕ → Canonicalized
unfolding family canonical_in
canonical_of raw_base parameters = canonical_in (family raw_base) raw_base parameters

unfoldable pub canonical_sql_type : String → Canonicalized
unfolding canonical_of elem_codes ◌=c=◌
canonical_sql_type value = do
  (raw_base, parameters) ← normalized_parts value
  canonical_of raw_base parameters
