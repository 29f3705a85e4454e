-- ===== src/Replay.antt =====
-- apps/api/src/changesafe/context/replay.py: the metadata of a recorded snapshot.
pub mod Catalog
pub mod Load
pub mod Loaded
