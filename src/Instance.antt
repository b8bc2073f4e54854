-- ===== src/Instance.antt =====
-- One epoch of a running core: crates/nyanpasu-core-manager/src/instance.rs.
pub mod Monitor
pub mod Stop
