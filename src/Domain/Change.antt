-- ===== src/Domain/Change.antt =====
-- `ChangeOperation` and `ChangeRequest` of domain.py, with the validators of a request.
use changesafe.Prelude.{
  ℕ, Bool, true, false, not, ◌&&◌, ◌||◌, Option, none, some, [], ◌∷◌, String, Codes, codes,
  casefold, ◌=c=◌, starts_with, is_truthy, is_some, leb, ◌==◌, length, all, Result, ok, err, ◌>>=◌,
  ◌>>◌, guard, is_ok,
}
use changesafe.SqlTypes.Parts.{base_of, group_of, parameters_of, is_digit}
use changesafe.SqlTypes.Canonicalize.{canonical_sql_type}
use changesafe.SqlTypes.Kind.{same_type}

pub data ChangeOperation : Type 0 where
  rename remove type_change : ChangeOperation

unfoldable pub same_operation : ChangeOperation → ChangeOperation → Bool
same_operation rename rename = true
same_operation remove remove = true
same_operation type_change type_change = true
same_operation _ _ = false

pub record ChangeRequest : Type 0 where
  pub asset_urn : String
  pub operation : ChangeOperation
  pub field : String
  pub new_field : Option String
  pub old_type : Option String
  pub new_type : Option String
  pub source_commit : String
  pub requested_by : String

unfoldable pub is_letter : ℕ → Bool
is_letter c = leb b'A' c && leb c b'Z' || leb b'a' c && leb c b'z'

-- `[A-Za-z_][A-Za-z0-9_]*`
unfoldable pub is_identifier : Codes → Bool
unfolding is_letter is_digit
is_identifier [] = false
is_identifier (c ∷ s) =
    (is_letter c || c == b'_') && all (λ d. is_letter d || is_digit d || d == b'_') s

-- `min_length` and `max_length`, in code points
abbrev pub has_length : ℕ → ℕ → Codes → Bool
has_length least most s = leb least (length s) && leb (length s) most

-- the declared constraints on `asset_urn`, `field`, `source_commit` and `requested_by`
unfoldable pub required_fields_valid : ChangeRequest → Bool
unfolding starts_with is_identifier
required_fields_valid r =
    leb 8 (length (codes r.asset_urn))
    && starts_with (codes r.asset_urn) (codes "urn:li:")
    && has_length 1 128 (codes r.field)
    && is_identifier (codes r.field)
    && has_length 1 200 (codes r.source_commit)
    && has_length 1 200 (codes r.requested_by)

-- `str | None` under a constraint
abbrev optional {ℓ} : {A : Type ℓ} → (A → Bool) → Option A → Bool
optional p none = true
optional p (some a) = p a

-- the declared constraints on `new_field`
unfoldable pub new_field_valid : Option String → Bool
unfolding is_identifier
new_field_valid = optional (λ s. leb (length (codes s)) 128 && is_identifier (codes s))

pub data ChangeError : Type 0 where
  new_field_required must_differ only_for_type_change only_for_operation only_for_rename :
      ChangeError
  old_type_required new_type_required types_equal bad_type : ChangeError

-- `if not self.new_field`
abbrev is_given : Option String → Bool
is_given none = false
is_given (some s) = is_truthy s

same_name : Option String → String → Bool
same_name none field = false
same_name (some s) field = casefold s =c= casefold field

-- `canonical_sql_type(new) == canonical_sql_type(old)`
unfoldable pub equal_types : Option String → Option String → Result ChangeError Bool
equal_types (some old) (some new) = elim (canonical_sql_type new) [
  | err e ↦ err bad_type
  | ok n ↦ elim (canonical_sql_type old) [ err e ↦ err bad_type | ok o ↦ ok (same_type n o) ]
]
equal_types _ _ = err bad_type

-- the branches of `validate_operation_fields`
operation_fields_in : ChangeOperation → ChangeRequest → Result ChangeError (Unit {0})
unfolding same_name equal_types
operation_fields_in rename r = do
  guard (is_given r.new_field) new_field_required
  guard (not (same_name r.new_field r.field)) must_differ
  guard (not (is_some r.old_type || is_some r.new_type)) only_for_type_change
operation_fields_in remove r =
    guard (not (is_some r.new_field || is_some r.old_type || is_some r.new_type)) only_for_operation
operation_fields_in type_change r = do
  guard (not (is_some r.new_field)) only_for_rename
  guard (is_given r.old_type) old_type_required
  guard (is_given r.new_type) new_type_required
  equal ← equal_types r.old_type r.new_type
  guard (not equal) types_equal

unfoldable pub validate_operation_fields : ChangeRequest → Result ChangeError (Unit {0})
unfolding operation_fields_in
validate_operation_fields r = operation_fields_in r.operation r

-- `SQL_TYPE_PATTERN`
unfoldable pub matches_type_pattern : Codes → Bool
unfolding base_of group_of parameters_of is_letter is_digit
matches_type_pattern s = elim (base_of s) [
  | [] ↦ false
  | c ∷ rest ↦
      is_letter c
      && all (λ d. is_letter d || is_digit d || d == b'_' || d == b' ') rest
      && is_some (parameters_of (group_of s))
]

-- The pattern of `old_type` and `new_type`, and `validate_type_semantics`, the validator of `old_type` and `new_type`
unfoldable pub type_semantics_valid : Option String → Bool
unfolding matches_type_pattern
type_semantics_valid =
    optional (λ s. matches_type_pattern (codes s) && is_ok (canonical_sql_type s))

-- A request that the constructor of `ChangeRequest` accepts.
unfoldable pub is_valid_request : ChangeRequest → Bool
is_valid_request r =
    required_fields_valid r
    && new_field_valid r.new_field
    && type_semantics_valid r.old_type
    && type_semantics_valid r.new_type
    && is_ok (validate_operation_fields r)
