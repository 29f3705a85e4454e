-- ===== src/Policy/Approval.antt =====
-- What an approval without blockers rests on.
use changesafe.Prelude.{
  ℕ, ◌+◌, ◌≤◌, ◌≡◌, ◌≢◌, refl, Bool, true, false, ◌↔◌, Option, none, some, List, [], ◌∷◌, ◌++◌,
  subst, sym, String, =s=_iff, arith,
}
use changesafe.Domain.Change.{ChangeRequest, ChangeOperation, same_operation}
use changesafe.Domain.Context.{Datetime, live, ContextBundle}
use changesafe.Domain.Warehouse.{
  passed, blocked, not_run, WarehouseValidationResult, warehouse_passed_evidence_is_complete,
}
use changesafe.Domain.Analysis.{ApprovalBlocker, ValidationReport}
use changesafe.Policy.Evaluate.{
  PolicySettings, append_if, seconds, evaluate_approval_policy, verification_blockers,
  identity_blockers, live_blockers, status_blockers, incomplete_blockers, mismatch_blockers,
  binding_changed, binding_blockers, invalid_completion, stale_blockers,
}

-- A moment at most `max_age` seconds back.
abbrev pub IsRecent : ℕ → Option Datetime → Datetime → Type 0
IsRecent max_age completed now =
    (t : Datetime) × (completed ≡ some t)
    × (t.aware ≡ true)
    × (now.aware ≡ true)
    × (t.instant ≤ now.instant)
    × (now.instant ≤ t.instant + seconds max_age)

-- The evidence of a passed validation is complete, was made under the configured identity and is
-- at most the configured age old.
pub record IsCurrent (settings : PolicySettings) (warehouse : WarehouseValidationResult)
    (now : Datetime) : Type 0 where
  pub complete : warehouse_passed_evidence_is_complete warehouse ≡ true
  pub bound :
      (fingerprint : String) × (settings.expected_binding_fingerprint ≡ some fingerprint)
      × (warehouse.binding_fingerprint ≡ some fingerprint)
  pub recent : IsRecent settings.warehouse_max_age_seconds warehouse.completed_at now

-- The whole policy, as conditions on its inputs.
pub record IsApprovable (settings : PolicySettings) (change : ChangeRequest)
    (context : ContextBundle) (validation : ValidationReport)
    (warehouse : WarehouseValidationResult) (now : Datetime) : Type 0 where
  pub verified : validation.is_passed ≡ true
  pub same_asset : context.target_urn ≡ change.asset_urn
  pub same_field : context.field ≡ change.field
  pub live_if_required : settings.require_live_evidence ≡ true → context.provenance.mode ≡ live
  pub not_blocked : warehouse.status ≢ blocked
  pub run_if_required : settings.require_warehouse ≡ true → warehouse.status ≢ not_run
  pub evidence_operation : warehouse.operation ≡ change.operation
  pub evidence_field : warehouse.field ≡ change.field
  pub current : warehouse.status ≡ passed → IsCurrent settings warehouse now

append-eq-nil {ℓ} : {A : Type ℓ} (xs ys : List A) → xs ++ ys ≡ [] → (xs ≡ []) × (ys ≡ [])
append-eq-nil [] ys h = (refl, h)
append-eq-nil (x ∷ xs) ys h = cc

append_if-eq-nil : (b : Bool) (x : ApprovalBlocker) → append_if b x ≡ [] → b ≡ false
append_if-eq-nil true x h = cc
append_if-eq-nil false x h = refl

pub same_operation_iff : (a b : ChangeOperation) → (same_operation a b ≡ true) ↔ (a ≡ b)
unfolding same_operation
same_operation_iff a b = ground arith

verification_iff :
    (validation : ValidationReport)
    → (verification_blockers validation ≡ []) ↔ (validation.is_passed ≡ true)
unfolding verification_blockers
verification_iff validation = ground arith

identity_iff :
    (change : ChangeRequest) (context : ContextBundle)
    → (identity_blockers change context ≡ [])
      ↔ ((context.target_urn ≡ change.asset_urn) × (context.field ≡ change.field))
unfolding identity_blockers
identity_iff change context =
    ground (arith, =s=_iff context.target_urn change.asset_urn, =s=_iff context.field change.field)

live_iff :
    (required : Bool) (context : ContextBundle)
    → (live_blockers required context ≡ []) ↔ (required ≡ true → context.provenance.mode ≡ live)
unfolding live_blockers
live_iff required context = ground arith

status_iff :
    (required : Bool) (warehouse : WarehouseValidationResult)
    → (status_blockers required warehouse ≡ [])
      ↔ ((warehouse.status ≢ blocked) × (required ≡ true → warehouse.status ≢ not_run))
unfolding status_blockers
status_iff required warehouse = ground arith

mismatch_iff :
    (change : ChangeRequest) (warehouse : WarehouseValidationResult)
    → (mismatch_blockers change warehouse ≡ [])
      ↔ ((warehouse.operation ≡ change.operation) × (warehouse.field ≡ change.field))
unfolding mismatch_blockers
mismatch_iff change warehouse = ground (
  arith,
  same_operation_iff warehouse.operation change.operation,
  =s=_iff warehouse.field change.field,
)

incomplete_iff :
    (warehouse : WarehouseValidationResult)
    → (incomplete_blockers warehouse ≡ [])
      ↔ (warehouse.status ≡ passed → warehouse_passed_evidence_is_complete warehouse ≡ true)
unfolding incomplete_blockers
incomplete_iff warehouse = ground arith

binding_changed_iff :
    (expected actual : Option String)
    → (binding_changed expected actual ≡ false)
      ↔ ((f : String) × (expected ≡ some f) × (actual ≡ some f))
unfolding binding_changed
binding_changed_iff none actual = ((λ h. cc), (λ p. cc (p.1)))
binding_changed_iff (some e) none = ((λ h. cc), (λ p. cc (p.2)))
binding_changed_iff (some e) (some a) =
    ((λ h. (e, refl, ground (arith, =s=_iff a e))), (λ p. ground (arith, =s=_iff a e, p.1, p.2)))

recent-valid :
    (max_age : ℕ) (t now : Datetime)
    → t.aware ≡ true
    → now.aware ≡ true
    → t.instant ≤ now.instant
    → now.instant ≤ t.instant + seconds max_age
    → invalid_completion max_age (some t) now ≡ false
unfolding invalid_completion
recent-valid n t now a b c d = ground arith

invalid_completion_iff :
    (max_age : ℕ) (completed : Option Datetime) (now : Datetime)
    → (invalid_completion max_age completed now ≡ false) ↔ IsRecent max_age completed now
unfolding invalid_completion
invalid_completion_iff n none now = ((λ h. cc), (λ p. cc (p.1)))
invalid_completion_iff n (some t) now = (
  (λ h. (t, refl, ground arith, ground arith, ground arith, ground arith)),
  (λ p.
      let (t', e, a, b, c, d) = p in
      subst (λ (o : Option Datetime). invalid_completion n o now ≡ false) (sym e)
        (recent-valid n t' now a b c d)),
)

module _ (settings : PolicySettings) (warehouse : WarehouseValidationResult) (now : Datetime) where
  binding_iff : (binding_blockers settings.expected_binding_fingerprint warehouse ≡ []) ↔ (
      warehouse.status ≡ passed
      → warehouse_passed_evidence_is_complete warehouse ≡ true
      → binding_changed settings.expected_binding_fingerprint warehouse.binding_fingerprint ≡ false)
  unfolding binding_blockers
  binding_iff = ground arith

  stale_iff : (stale_blockers settings.warehouse_max_age_seconds warehouse now ≡ []) ↔ (
      warehouse.status ≡ passed
      → warehouse_passed_evidence_is_complete warehouse ≡ true
      → invalid_completion settings.warehouse_max_age_seconds warehouse.completed_at now ≡ false)
  unfolding stale_blockers
  stale_iff = ground arith

  IsCurrent-of :
      incomplete_blockers warehouse ≡ []
      → binding_blockers settings.expected_binding_fingerprint warehouse ≡ []
      → stale_blockers settings.warehouse_max_age_seconds warehouse now ≡ []
      → warehouse.status ≡ passed
      → IsCurrent settings warehouse now
  IsCurrent-of hi hb hs p =
      let complete = (incomplete_iff warehouse).0 hi p in
      record {
        complete = complete;
        bound =
            (binding_changed_iff settings.expected_binding_fingerprint
                warehouse.binding_fingerprint).0
              (binding_iff.0 hb p complete);
        recent =
            (invalid_completion_iff settings.warehouse_max_age_seconds warehouse.completed_at now).0
              (stale_iff.0 hs p complete);
      }

  binding_of_current :
      (warehouse.status ≡ passed → IsCurrent settings warehouse now)
      → (incomplete_blockers warehouse ≡ [])
        × (binding_blockers settings.expected_binding_fingerprint warehouse ≡ [])
        × (stale_blockers settings.warehouse_max_age_seconds warehouse now ≡ [])
  binding_of_current h = (
    (incomplete_iff warehouse).1 (λ p. (h p).complete),
    binding_iff.1 (λ p _.
        (binding_changed_iff settings.expected_binding_fingerprint warehouse.binding_fingerprint).1
          (h p).bound),
    stale_iff.1 (λ p _.
        (invalid_completion_iff settings.warehouse_max_age_seconds warehouse.completed_at now).1
          (h p).recent),
  )

module _ (settings : PolicySettings) (change : ChangeRequest) (context : ContextBundle)
    (validation : ValidationReport) (warehouse : WarehouseValidationResult) (now : Datetime) where
  no_blockers :
      evaluate_approval_policy settings change context validation warehouse now ≡ []
      → IsApprovable settings change context validation warehouse now
  unfolding evaluate_approval_policy
  no_blockers h =
      let (h1, r1) = append-eq-nil (verification_blockers validation) _ h in
      let (h2, r2) = append-eq-nil (identity_blockers change context) _ r1 in
      let (h3, r3) = append-eq-nil (live_blockers settings.require_live_evidence context) _ r2 in
      let (h4, r4) = append-eq-nil (status_blockers settings.require_warehouse warehouse) _ r3 in
      let (h5, r5) = append-eq-nil (incomplete_blockers warehouse) _ r4 in
      let (h6, r6) = append-eq-nil (mismatch_blockers change warehouse) _ r5 in
      let (h7, h8) =
        append-eq-nil (binding_blockers settings.expected_binding_fingerprint warehouse) _ r6 in
      let (asset, field) = (identity_iff change context).0 h2 in
      let (ran, run) = (status_iff settings.require_warehouse warehouse).0 h4 in
      let (operation, evidence) = (mismatch_iff change warehouse).0 h6 in
      record {
        verified = (verification_iff validation).0 h1;
        same_asset = asset;
        same_field = field;
        live_if_required = (live_iff settings.require_live_evidence context).0 h3;
        not_blocked = ran;
        run_if_required = run;
        evidence_operation = operation;
        evidence_field = evidence;
        current = IsCurrent-of settings warehouse now h5 h7 h8;
      }

  IsApprovable-no_blockers :
      IsApprovable settings change context validation warehouse now
      → evaluate_approval_policy settings change context validation warehouse now ≡ []
  unfolding evaluate_approval_policy
  IsApprovable-no_blockers a =
      let (h5, h7, h8) = binding_of_current settings warehouse now a.current in
      rw (
        (verification_iff validation).1 a.verified,
        (identity_iff change context).1 (a.same_asset, a.same_field),
        (live_iff settings.require_live_evidence context).1 a.live_if_required,
        (status_iff settings.require_warehouse warehouse).1 (a.not_blocked, a.run_if_required),
        h5,
        (mismatch_iff change warehouse).1 (a.evidence_operation, a.evidence_field),
        h7,
        h8,
      )

  -- The policy finds no blocker exactly when the validation passed; the context is that of the
  -- asset and field of the change, and live where that is required; the warehouse evidence is of
  -- the operation and field of the change, not blocked, and there where it is required; and, if
  -- it says passed, it is complete, made under the configured identity, and at most the
  -- configured age old at the moment of the evaluation.
  pub evaluate_approval_policy_iff :
      (evaluate_approval_policy settings change context validation warehouse now ≡ [])
      ↔ IsApprovable settings change context validation warehouse now
  evaluate_approval_policy_iff = (no_blockers, IsApprovable-no_blockers)
