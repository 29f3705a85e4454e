-- ===== src/Publication.antt =====
-- apps/api/src/changesafe/publication: the approval of a run and the publication that follows.
pub mod Intent
pub mod Authorize
pub mod Patch
pub mod Ports
pub mod Review
pub mod Ends
pub mod Writeback
pub mod Live
pub mod Approve
pub mod Rules
pub mod Checkpoints
pub mod Calls
pub mod Bound
pub mod Granted
pub mod Permitted
pub mod Ready
pub mod Settled
pub mod Opened
pub mod Whole
pub mod Reuse
pub mod Kinds
