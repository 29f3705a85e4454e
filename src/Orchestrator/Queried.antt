-- ===== src/Orchestrator/Queried.antt =====
-- What an analysis learns from the warehouse.
use changesafe.Prelude.{
  some-injective, none-ne-some, ◌≡◌, refl, sym, ap, ◌∙◌, subst, inl, inr, ◌⊎◌, Bool, Bool-cases,
  true, false, Option, none, some, [], ◌∷◌, String, Codes, codes, if◌then◌else◌, arith,
}
use changesafe.Domain.Change.{ChangeRequest, has_length}
use changesafe.Domain.Context.{ContextBundle}
use changesafe.Domain.Warehouse.{
  WarehouseValidationResult, status_is_not_run, status_matches_evidence,
}
use changesafe.Domain.Constructed.{
  code_valid, check_valid, fingerprint_valid, fields_valid, construct,
}
use changesafe.Orchestrator.Ports.{
  Orchestrator, WarehouseOutcome, validated, validation_error, timed_out, crashed,
}
use changesafe.Orchestrator.Warehouse.{
  is_check_code, safe_code, blocked_fields, blocked_result, or_crashed, or_not_run,
  validate_warehouse, validate_outcome,
}

-- a result that the constructor of `WarehouseValidationResult` accepts, and that claims execution
abbrev pub IsExecuted : WarehouseValidationResult → Type 0
IsExecuted w =
    (fields_valid w ≡ true)
    × (status_matches_evidence w ≡ true)
    × (status_is_not_run w.status ≡ false)

-- a result is returned, and claims execution
abbrev pub IsReturned : Option WarehouseValidationResult → Type 0
IsReturned o = (w : WarehouseValidationResult) × (o ≡ some w) × IsExecuted w

-- the message of an error of the port is one that a check can carry
abbrev pub Speaks : WarehouseOutcome → Type 0
Speaks (validation_error code message retryable) = has_length 1 500 (codes message) ≡ true
Speaks _ = Unit

same_pattern : (s : Codes) → is_check_code s ≡ code_valid s
unfolding is_check_code code_valid
same_pattern [] = refl
same_pattern (c ∷ s) = refl

safe_code_valid : (code : String) → code_valid (codes (safe_code code)) ≡ true
unfolding code_valid
safe_code_valid code = elim (Bool-cases (is_check_code (codes code))) [
  | inl ok_code ↦ rw (ok_code) (sym (same_pattern (codes code)) ∙ ok_code)
  | inr bad_code ↦ rw (bad_code) refl
]

construct-ok :
    (w : WarehouseValidationResult)
    → fields_valid w ≡ true
    → status_matches_evidence w ≡ true
    → construct w ≡ some w
unfolding construct
construct-ok w h k = ground (arith, h, k)

construct-cases :
    (w : WarehouseValidationResult)
    → (construct w ≡ none)
      ⊎ ((construct w ≡ some w) × (fields_valid w ≡ true) × (status_matches_evidence w ≡ true))
unfolding construct
construct-cases w = ground arith

returned-IsExecuted :
    (r : Option WarehouseValidationResult)
    → IsReturned r
    → (w : WarehouseValidationResult) → r ≡ some w
    → IsExecuted w
returned-IsExecuted r (v, same, executed) w h =
    subst IsExecuted (some-injective (sym same ∙ h)) executed

module _ (o : Orchestrator) (change : ChangeRequest)
    (label : has_length 1 80 (codes o.warehouse_environment_label) ≡ true)
    (field : has_length 1 128 (codes change.field) ≡ true)
    (binding : fingerprint_valid (o.warehouse_binding_map change.asset_urn) ≡ true) where
  blocked-fields_valid :
      (code message : String) (retryable : Bool)
      → has_length 1 500 (codes message) ≡ true
      → fields_valid (blocked_fields o change code message retryable) ≡ true
  unfolding fields_valid check_valid
  blocked-fields_valid code message retryable h =
      ground (arith, label, field, binding, h, safe_code_valid code)

  blocked-IsReturned :
      (code message : String) (retryable : Bool)
      → has_length 1 500 (codes message) ≡ true
      → IsReturned (blocked_result o change code message retryable)
  unfolding blocked_result status_matches_evidence
  blocked-IsReturned code message retryable h =
      let w = blocked_fields o change code message retryable in
      let valid = blocked-fields_valid code message retryable h in
      (w, construct-ok w valid refl, (valid, refl, refl))

  or_crashed-IsReturned :
      (r : Option WarehouseValidationResult)
      → ((w : WarehouseValidationResult) → r ≡ some w → IsExecuted w)
      → IsReturned (or_crashed o change r)
  unfolding or_crashed
  or_crashed-IsReturned none h =
      blocked-IsReturned "warehouse_error" "Warehouse validation did not complete." true refl
  or_crashed-IsReturned (some w) h = (w, refl, h w refl)

  not_run-IsReturned :
      (w : WarehouseValidationResult) (b : Bool)
      → status_is_not_run w.status ≡ b
      → fields_valid w ≡ true
      → status_matches_evidence w ≡ true
      → IsReturned (
          if b
          then blocked_result o change "warehouse_not_run"
              "Warehouse validation returned no execution evidence." true
          else some w)
  not_run-IsReturned w true unrun valid evidence =
      blocked-IsReturned "warehouse_not_run" "Warehouse validation returned no execution evidence."
        true refl
  not_run-IsReturned w false unrun valid evidence = (w, refl, (valid, evidence, unrun))

  validated-IsExecuted :
      (result w : WarehouseValidationResult)
      → or_not_run o change (construct result) ≡ some w
      → IsExecuted w
  validated-IsExecuted result w h = elim (construct-cases result) [
    | inl rejected ↦ absurd (none-ne-some (ap (or_not_run o change) (sym rejected) ∙ h))
    | inr (accepted, valid, evidence) ↦
        returned-IsExecuted _
          (not_run-IsReturned result (status_is_not_run result.status) refl valid evidence) w
          (ap (or_not_run o change) (sym accepted) ∙ h)
  ]

  outcome-IsReturned :
      (outcome : WarehouseOutcome) → Speaks outcome → IsReturned (validate_outcome o change outcome)
  unfolding validate_outcome
  outcome-IsReturned (validated result) h =
      or_crashed-IsReturned (or_not_run o change (construct result)) (validated-IsExecuted result)
  outcome-IsReturned (validation_error code message retryable) h =
      blocked-IsReturned code message retryable h
  outcome-IsReturned timed_out h =
      let message : String = "Warehouse validation timed out." in
      or_crashed-IsReturned (blocked_result o change "warehouse_timeout" message true)
        (returned-IsExecuted _ (blocked-IsReturned "warehouse_timeout" message true refl))
  outcome-IsReturned crashed h =
      blocked-IsReturned "warehouse_error" "Warehouse validation did not complete." true refl

-- With an environment label, a field and a configured binding that a result can carry, and a port whose
-- errors have a message of 1 to 500 characters, `_validate_warehouse` raises no validation error, however
-- the port ends. It returns a result whose fields, checks and evidence the constructor accepts, whatever
-- the code of an error is, and whose status is never that nothing was run.
pub validate_warehouse-IsReturned :
    (o : Orchestrator) (port : ChangeRequest → ContextBundle → WarehouseOutcome)
    (change : ChangeRequest) (context : ContextBundle)
    → has_length 1 80 (codes o.warehouse_environment_label) ≡ true
    → has_length 1 128 (codes change.field) ≡ true
    → fingerprint_valid (o.warehouse_binding_map change.asset_urn) ≡ true
    → Speaks (port change context)
    → IsReturned (validate_warehouse o port change context)
unfolding validate_warehouse
validate_warehouse-IsReturned o port change context label field binding speaks =
    outcome-IsReturned o change label field binding (port change context) speaks
