-- ===== src/Domain/Warehouse.antt =====
-- The warehouse evidence of domain.py: the records, and the contract that evidence of a passed
-- validation has to meet.
use changesafe.Prelude.{
  ℕ, Bool, true, false, not, ◌&&◌, ◌||◌, Option, none, some, List, String, codes, elem, is_distinct,
  is_some, is_empty, ◌=s=◌, leb, ltb, ◌==◌, length, all, find?, map, if◌then◌else◌,
}
use changesafe.SqlTypes.Parts.{is_digit}
use changesafe.Domain.Change.{ChangeOperation, rename, remove, type_change}
use changesafe.Domain.Context.{Datetime}

pub data WarehouseValidationStatus : Type 0 where
  not_run passed blocked : WarehouseValidationStatus

pub data WarehouseValidationMode : Type 0 where
  unqueried aggregate : WarehouseValidationMode

pub record WarehouseCheck : Type 0 where
  pub code : String
  pub label : String
  pub is_passed : Bool
  pub retryable : Bool
  pub detail : String
  pub observed_count : Option ℕ

pub record WarehouseValidationResult : Type 0 where
  pub status : WarehouseValidationStatus
  pub mode : WarehouseValidationMode
  pub environment_label : String
  pub operation : ChangeOperation
  pub field : String
  pub aggregate_query_started : Option Bool
  pub binding_fingerprint : Option String
  pub started_at : Option Datetime
  pub completed_at : Option Datetime
  pub rows_evaluated : Option ℕ
  pub populated_row_count : Option ℕ
  pub unsafe_row_count : Option ℕ
  pub query_ids : List String
  pub elapsed_ms : Option ℕ
  pub checks : List WarehouseCheck

abbrev pub status_is_passed : WarehouseValidationStatus → Bool
status_is_passed passed = true
status_is_passed _ = false

abbrev pub status_is_not_run : WarehouseValidationStatus → Bool
status_is_not_run not_run = true
status_is_not_run _ = false

abbrev pub status_is_blocked : WarehouseValidationStatus → Bool
status_is_blocked blocked = true
status_is_blocked _ = false

abbrev mode_is_aggregate : WarehouseValidationMode → Bool
mode_is_aggregate aggregate = true
mode_is_aggregate unqueried = false

abbrev pub is_true : Option Bool → Bool
is_true none = false
is_true (some b) = b

abbrev pub is_false : Option Bool → Bool
is_false none = false
is_false (some b) = not b

-- `[A-Za-z0-9_-]{1,128}`
warehouse_query_id : String → Bool
unfolding is_digit
warehouse_query_id s =
    leb 1 (length (codes s))
    && leb (length (codes s)) 128
    && all
        (λ c.
          leb b'A' c && leb c b'Z'
          || leb b'a' c && leb c b'z'
          || is_digit c
          || c == b'_'
          || c == b'-')
        (codes s)

abbrev pub warehouse_operation_check : ChangeOperation → String
warehouse_operation_check rename = "rename_projection"
warehouse_operation_check remove = "remove_impact"
warehouse_operation_check type_change = "type_conversion"

-- `_aware`
abbrev pub is_aware : Option Datetime → Bool
is_aware none = false
is_aware (some t) = t.aware

-- `started <= completed`, of moments that are given
abbrev pub in_order : Option Datetime → Option Datetime → Bool
in_order (some s) (some c) = leb s.instant c.instant
in_order _ _ = false

-- a count that is given and positive
abbrev pub positive : Option ℕ → Bool
positive none = false
positive (some n) = ltb 0 n

-- `populated <= rows`, of counts that are given
abbrev pub at_most : Option ℕ → Option ℕ → Bool
at_most (some n) (some m) = leb n m
at_most _ _ = false

abbrev pub is_zero : Option ℕ → Bool
is_zero none = false
is_zero (some n) = n == 0

abbrev pub codes_of : List WarehouseCheck → List String
codes_of checks = map (λ (c : WarehouseCheck). c.code) checks

-- The long test, with each disjunct negated: the evidence is held to be complete only if no
-- disjunct holds.
unfoldable pub evidence_present : WarehouseValidationResult → Bool
unfolding warehouse_query_id
evidence_present e =
    mode_is_aggregate e.mode
    && is_true e.aggregate_query_started
    && is_some e.binding_fingerprint
    && is_aware e.started_at
    && is_aware e.completed_at
    && in_order e.started_at e.completed_at
    && positive e.rows_evaluated
    && positive e.populated_row_count
    && at_most e.populated_row_count e.rows_evaluated
    && not (is_empty e.query_ids)
    && is_distinct e.query_ids
    && all warehouse_query_id e.query_ids
    && is_distinct (codes_of e.checks)
    && all (λ (c : WarehouseCheck). c.is_passed) e.checks
    && elem "warehouse_identity" (codes_of e.checks)
    && elem "warehouse_schema" (codes_of e.checks)
    && elem (warehouse_operation_check e.operation) (codes_of e.checks)

-- the counts of the operation's own check; a type change has to show that no row is unsafe
counts_agree : ChangeOperation → Option ℕ → Option WarehouseCheck → Bool
counts_agree type_change unsafe none = false
counts_agree type_change unsafe (some c) = is_zero unsafe && is_zero c.observed_count
counts_agree _ unsafe none = false
counts_agree _ unsafe (some c) = not (is_some unsafe) && not (is_some c.observed_count)

unfoldable pub operation_check : WarehouseValidationResult → Option WarehouseCheck
operation_check e =
    find? (λ (c : WarehouseCheck). c.code =s= warehouse_operation_check e.operation) e.checks

unfoldable pub warehouse_passed_evidence_is_complete : WarehouseValidationResult → Bool
unfolding counts_agree
warehouse_passed_evidence_is_complete e =
    if status_is_passed e.status
    then (if evidence_present e
        then counts_agree e.operation e.unsafe_row_count (operation_check e)
        else false)
    else true

-- `status_matches_evidence`
unfoldable pub status_matches_evidence : WarehouseValidationResult → Bool
status_matches_evidence e =
    not (status_is_passed e.status && not (warehouse_passed_evidence_is_complete e))
    && not (
        is_false e.aggregate_query_started
        && (is_some e.rows_evaluated
            || is_some e.populated_row_count
            || is_some e.unsafe_row_count))
    && not (
        status_is_not_run e.status
        && (is_some e.started_at
            || not (is_empty e.query_ids)
            || is_true e.aggregate_query_started))
