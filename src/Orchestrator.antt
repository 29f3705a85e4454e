-- ===== src/Orchestrator.antt =====
-- apps/api/src/changesafe/orchestrator.py: the analysis of a change over the store and the ports.
pub mod Ports
pub mod Warehouse
pub mod Stages
pub mod Analyze
pub mod Rules
pub mod Decided
pub mod Ends
pub mod Outcome
pub mod Whole
pub mod Fallback
pub mod Queried
