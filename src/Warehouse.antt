-- ===== src/Warehouse.antt =====
-- apps/api/src/changesafe/warehouse/queries.py: the aggregate queries of a warehouse validation, and the
-- guard that each of them passes before it is run.
pub mod Text
pub mod Contract
pub mod Guard
pub mod Plan
pub mod Guarded
pub mod ReadOnly
pub mod Normal
pub mod Clean
pub mod CleanSql
pub mod Trusted
pub mod Registered
pub mod Agree
