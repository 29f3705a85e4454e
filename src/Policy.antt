-- ===== src/Policy.antt =====
-- apps/api/src/changesafe/policy.py: the fail-closed approval policy.
pub mod Evaluate
pub mod Approval
