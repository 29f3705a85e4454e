-- ===== src/Domain.antt =====
-- apps/api/src/changesafe/domain.py: the typed contracts that the services share, and their
-- validators. The children follow the order of the source.
pub mod Change
pub mod Context
pub mod Warehouse
pub mod Constructed
pub mod Analysis
pub mod Equal
pub mod Publication
