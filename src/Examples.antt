-- ===== src/Examples.antt =====
-- Concrete inputs, and the theorems of the library applied to them.
mod Data
mod Sql
mod Calls
mod Analyses
mod Publications
mod Queries
mod Snapshots
