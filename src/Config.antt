-- ===== src/Config.antt =====
-- apps/api/src/changesafe/config.py: the settings that the modelled parts read.
pub mod Settings
