-- ===== src/Impact.antt =====
-- apps/api/src/changesafe/impact.py: the six impact classifications.
pub mod Facts
pub mod Classify
pub mod Evidence
