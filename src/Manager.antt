-- ===== src/Manager.antt =====
-- The core manager: crates/nyanpasu-core-manager/src/manager/.
pub mod Publish
pub mod Ctrl
pub mod Quarantine
pub mod Ownership
pub mod Launch
pub mod Lifecycle
pub mod Stopping
pub mod Switching
pub mod Apply
pub mod Runs
