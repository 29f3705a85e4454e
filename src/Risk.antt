-- ===== src/Risk.antt =====
-- apps/api/src/changesafe/risk.py: the deterministic risk score.
pub mod Score
pub mod Bounds
pub mod Monotone
