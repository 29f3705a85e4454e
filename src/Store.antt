-- ===== src/Store.antt =====
-- apps/api/src/changesafe/store.py: runs, ordered events, the publication ledger and the reserved
-- cost of a language model, in four tables. A transaction that is rolled back leaves the tables as
-- they were.
pub mod States
pub mod Tables
pub mod Scrub
pub mod Runs
pub mod Usage
pub mod Ledger
pub mod Trail
pub mod Steps
pub mod Advance
pub mod Insert
pub mod Inserting
pub mod Invariant
pub mod History
pub mod Behaviour
pub mod Budget
pub mod Binding
pub mod Entries
pub mod Reading
pub mod Creation
pub mod Refinement
