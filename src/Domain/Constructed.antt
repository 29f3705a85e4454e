-- ===== src/Domain/Constructed.antt =====
-- The constructor of `WarehouseValidationResult` in domain.py: the declared constraints on the fields of
-- a check and of a result, and then the validator.
use changesafe.Prelude.{
  Bool, true, false, ◌&&◌, ◌||◌, Option, none, some, [], ◌∷◌, String, Codes, codes, leb, ◌==◌,
  length, all, if◌then◌else◌,
}
use changesafe.SqlTypes.Parts.{is_digit}
use changesafe.Domain.Change.{has_length}
use changesafe.Domain.Warehouse.{WarehouseCheck, WarehouseValidationResult, status_matches_evidence}

-- `^[a-z][a-z0-9_]*$`
unfoldable pub code_valid : Codes → Bool
unfolding is_digit
code_valid [] = false
code_valid (c ∷ s) =
    leb b'a' c && leb c b'z' && all (λ d. leb b'a' d && leb d b'z' || is_digit d || d == b'_') s

unfoldable pub check_valid : WarehouseCheck → Bool
unfolding code_valid
check_valid c =
    code_valid (codes c.code)
    && has_length 1 120 (codes c.label)
    && has_length 1 500 (codes c.detail)

-- `^[0-9a-f]{64}$`
unfoldable pub fingerprint_valid : Option String → Bool
unfolding is_digit
fingerprint_valid none = true
fingerprint_valid (some s) =
    length (codes s) == 64 && all (λ c. is_digit c || leb b'a' c && leb c b'f') (codes s)

unfoldable pub fields_valid : WarehouseValidationResult → Bool
unfolding check_valid fingerprint_valid
fields_valid w =
    has_length 1 80 (codes w.environment_label)
    && has_length 1 128 (codes w.field)
    && fingerprint_valid w.binding_fingerprint
    && leb (length w.query_ids) 8
    && leb (length w.checks) 8
    && all check_valid w.checks

-- the constructor; `none` is its `ValidationError`
unfoldable pub construct : WarehouseValidationResult → Option WarehouseValidationResult
unfolding fields_valid status_matches_evidence
construct w = if fields_valid w && status_matches_evidence w then some w else none
