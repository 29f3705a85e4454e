-- ===== src/Policy/Evaluate.antt =====
-- `evaluate_approval_policy` of policy.py, one function for each test in the source's order.
use changesafe.Prelude.{
  ℕ, ◌*◌, ◌-◌, Bool, true, false, not, ◌&&◌, ◌||◌, Option, none, some, List, [], ◌∷◌, ◌++◌, String,
  ◌=s=◌, any, ltb, if◌then◌else◌,
}
use changesafe.Domain.Change.{ChangeRequest, same_operation}
use changesafe.Domain.Context.{Datetime, ContextBundle, is_snapshot}
use changesafe.Domain.Warehouse.{
  WarehouseCheck, WarehouseValidationResult, status_is_passed, status_is_not_run, status_is_blocked,
  warehouse_passed_evidence_is_complete,
}
use changesafe.Domain.Analysis.{
  ApprovalBlocker, ValidationReport, warehouse_evidence_incomplete_blocker,
}

-- the settings that the policy is called with
pub record PolicySettings : Type 0 where
  pub require_live_evidence : Bool
  pub require_warehouse : Bool
  pub warehouse_max_age_seconds : ℕ
  pub expected_binding_fingerprint : Option String

-- `if test: blockers.append(blocker)`
abbrev pub append_if : Bool → ApprovalBlocker → List ApprovalBlocker
append_if true b = b ∷ []
append_if false b = []

unfoldable pub verification_blockers : ValidationReport → List ApprovalBlocker
verification_blockers validation = append_if (not validation.is_passed) (record {
  code = "VERIFICATION_FAILED";
  message = "Generated artifacts did not pass safety checks.";
  retryable = false;
})

unfoldable pub identity_blockers : ChangeRequest → ContextBundle → List ApprovalBlocker
identity_blockers change context =
    append_if
      (not (context.target_urn =s= change.asset_urn) || not (context.field =s= change.field))
      (record {
        code = "CONTEXT_IDENTITY_MISMATCH";
        message = "Metadata context does not match the requested asset and field.";
        retryable = false;
      })

unfoldable pub live_blockers : Bool → ContextBundle → List ApprovalBlocker
live_blockers require_live_evidence context =
    append_if (require_live_evidence && is_snapshot context.provenance.mode) (record {
      code = "LIVE_EVIDENCE_REQUIRED";
      message = "Live metadata evidence is required for approval.";
      retryable = true;
    })

-- the `if`/`elif` on the status
unfoldable pub status_blockers : Bool → WarehouseValidationResult → List ApprovalBlocker
status_blockers require_warehouse warehouse =
    if status_is_not_run warehouse.status && require_warehouse
    then record {
      code = "WAREHOUSE_EVIDENCE_REQUIRED";
      message = "Warehouse validation evidence is required for approval.";
      retryable = true;
    }
      ∷ []
    else append_if (status_is_blocked warehouse.status) (record {
      code = "WAREHOUSE_VALIDATION_FAILED";
      message = "Warehouse validation did not pass.";
      retryable = any (λ (c : WarehouseCheck). not c.is_passed && c.retryable) warehouse.checks;
    })

abbrev pub incomplete_passed : WarehouseValidationResult → Bool
incomplete_passed warehouse =
    status_is_passed warehouse.status && not (warehouse_passed_evidence_is_complete warehouse)

unfoldable pub incomplete_blockers : WarehouseValidationResult → List ApprovalBlocker
incomplete_blockers warehouse =
    append_if (incomplete_passed warehouse) warehouse_evidence_incomplete_blocker

unfoldable pub mismatch_blockers : ChangeRequest → WarehouseValidationResult → List ApprovalBlocker
mismatch_blockers change warehouse =
    append_if
      (not (same_operation warehouse.operation change.operation)
        || not (warehouse.field =s= change.field))
      (record {
        code = "WAREHOUSE_EVIDENCE_MISMATCH";
        message = "Warehouse evidence does not match the requested operation and field.";
        retryable = false;
      })

-- `expected is None or warehouse.binding_fingerprint != expected`
unfoldable pub binding_changed : Option String → Option String → Bool
binding_changed none actual = true
binding_changed (some expected) none = true
binding_changed (some expected) (some actual) = not (actual =s= expected)

unfoldable pub binding_blockers : Option String → WarehouseValidationResult → List ApprovalBlocker
unfolding binding_changed
binding_blockers expected warehouse =
    append_if
      (status_is_passed warehouse.status
        && not (incomplete_passed warehouse)
        && binding_changed expected warehouse.binding_fingerprint)
      (record {
        code = "WAREHOUSE_CONFIGURATION_CHANGED";
        message = "The configured warehouse identity or relation changed after validation.";
        retryable = true;
      })

-- `timedelta(seconds=n)` in microseconds
abbrev pub seconds : ℕ → ℕ
seconds n = n * 1_000_000

-- A completion that is missing, naive, later than now or older than the limit. `-` is exact in the
-- last test, since the moment is not later than now.
unfoldable pub invalid_completion : ℕ → Option Datetime → Datetime → Bool
invalid_completion max_age none now = true
invalid_completion max_age (some completed_at) now =
    if not completed_at.aware || not now.aware || ltb now.instant completed_at.instant
    then true
    else ltb (seconds max_age) (now.instant - completed_at.instant)

unfoldable pub stale_blockers : ℕ → WarehouseValidationResult → Datetime → List ApprovalBlocker
unfolding invalid_completion
stale_blockers max_age warehouse now =
    append_if
      (status_is_passed warehouse.status
        && not (incomplete_passed warehouse)
        && invalid_completion max_age warehouse.completed_at now)
      (record {
        code = "WAREHOUSE_EVIDENCE_STALE";
        message = "Warehouse validation evidence is no longer current.";
        retryable = true;
      })

unfoldable pub evaluate_approval_policy :
    PolicySettings
    → ChangeRequest
    → ContextBundle
    → ValidationReport
    → WarehouseValidationResult
    → Datetime
    → List ApprovalBlocker
evaluate_approval_policy settings change context validation warehouse now =
    verification_blockers validation
    ++ (identity_blockers change context
        ++ (live_blockers settings.require_live_evidence context
            ++ (status_blockers settings.require_warehouse warehouse
                ++ (incomplete_blockers warehouse
                    ++ (mismatch_blockers change warehouse
                        ++ (binding_blockers settings.expected_binding_fingerprint warehouse
                            ++ stale_blockers settings.warehouse_max_age_seconds warehouse now))))))
