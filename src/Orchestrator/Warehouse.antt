-- ===== src/Orchestrator/Warehouse.antt =====
-- `_not_run_result`, `_blocked_result` and `_validate_warehouse`.
use changesafe.Prelude.{
  ◌-◌, ◌/◌, Bool, true, false, ◌&&◌, ◌||◌, Option, none, some, [], ◌∷◌, String, Codes, codes, all,
  leb, ◌==◌, if◌then◌else◌,
}
use changesafe.SqlTypes.Parts.{is_digit}
use changesafe.Domain.Change.{ChangeRequest}
use changesafe.Domain.Context.{ContextBundle}
use changesafe.Domain.Warehouse.{
  WarehouseValidationResult, not_run, blocked, unqueried, aggregate, status_is_not_run,
}
use changesafe.Domain.Constructed.{construct}
use changesafe.Orchestrator.Ports.{
  Orchestrator, WarehouseOutcome, validated, validation_error, timed_out, crashed,
}

-- `WAREHOUSE_CHECK_CODE`, `[a-z][a-z0-9_]*`
unfoldable pub is_check_code : Codes → Bool
unfolding is_digit
is_check_code [] = false
is_check_code (c ∷ s) =
    leb b'a' c && leb c b'z' && all (λ d. leb b'a' d && leb d b'z' || is_digit d || d == b'_') s

-- the arguments of the result that nothing was run
abbrev pub not_run_fields : Orchestrator → ChangeRequest → WarehouseValidationResult
not_run_fields o change = record {
  status = not_run;
  mode = unqueried;
  environment_label = o.warehouse_environment_label;
  operation = change.operation;
  field = change.field;
  aggregate_query_started = some false;
  binding_fingerprint = none;
  started_at = none;
  completed_at = none;
  rows_evaluated = none;
  populated_row_count = none;
  unsafe_row_count = none;
  query_ids = [];
  elapsed_ms = none;
  checks = [];
}

-- the arguments of the result of a validation that did not complete, and the code as it is or made safe
abbrev pub safe_code : String → String
safe_code code = if is_check_code (codes code) then code else "warehouse_error"

abbrev pub blocked_fields :
    Orchestrator → ChangeRequest → String → String → Bool → WarehouseValidationResult
blocked_fields o change code message retryable = record {
  status = blocked;
  mode = aggregate;
  environment_label = o.warehouse_environment_label;
  operation = change.operation;
  field = change.field;
  aggregate_query_started = none;
  binding_fingerprint = o.warehouse_binding_map change.asset_urn;
  started_at = some o.started_at;
  completed_at = some o.completed_at;
  rows_evaluated = none;
  populated_row_count = none;
  unsafe_row_count = none;
  query_ids = [];
  elapsed_ms = some ((o.completed_at.instant - o.started_at.instant) / 1000);
  checks =
      record {
        code = safe_code code;
        label = "Warehouse validation";
        is_passed = false;
        retryable = retryable;
        detail = message;
        observed_count = none;
      }
      ∷ [];
}

unfoldable pub not_run_result : Orchestrator → ChangeRequest → Option WarehouseValidationResult
unfolding construct
not_run_result o change = construct (not_run_fields o change)

unfoldable pub blocked_result :
    Orchestrator → ChangeRequest → String → String → Bool → Option WarehouseValidationResult
unfolding construct is_check_code
blocked_result o change code message retryable =
    construct (blocked_fields o change code message retryable)

-- `except Exception`, of the block of the `try`
unfoldable pub or_crashed :
    Orchestrator
    → ChangeRequest
    → Option WarehouseValidationResult
    → Option WarehouseValidationResult
unfolding blocked_result
or_crashed o change (some w) = some w
or_crashed o change none =
    blocked_result o change "warehouse_error" "Warehouse validation did not complete." true

-- a validated result, which has to claim execution
abbrev pub or_not_run :
    Orchestrator
    → ChangeRequest
    → Option WarehouseValidationResult
    → Option WarehouseValidationResult
or_not_run o change none = none
or_not_run o change (some w) =
    if status_is_not_run w.status
    then blocked_result o change "warehouse_not_run"
        "Warehouse validation returned no execution evidence." true
    else some w

-- `model_validate` makes a result of what the port returns as the constructor does; a result that is
-- one already has been through the constructor. `none` is a `ValidationError` that leaves the method.
unfoldable pub validate_outcome :
    Orchestrator → ChangeRequest → WarehouseOutcome → Option WarehouseValidationResult
unfolding blocked_result or_crashed construct
validate_outcome o change (validated result) =
    or_crashed o change (or_not_run o change (construct result))
validate_outcome o change (validation_error code message retryable) =
    blocked_result o change code message retryable
validate_outcome o change timed_out =
    or_crashed o change
      (blocked_result o change "warehouse_timeout" "Warehouse validation timed out." true)
validate_outcome o change crashed =
    blocked_result o change "warehouse_error" "Warehouse validation did not complete." true

-- `_validate_warehouse`, of a port that is there
unfoldable pub validate_warehouse :
    Orchestrator
    → (ChangeRequest → ContextBundle → WarehouseOutcome)
    → ChangeRequest
    → ContextBundle
    → Option WarehouseValidationResult
unfolding validate_outcome
validate_warehouse o port change context = validate_outcome o change (port change context)
