-- ===== src/Config.antt =====
-- Configurations of a core: crates/nyanpasu-core-manager/src/config.
pub mod Fields
pub mod Changes
