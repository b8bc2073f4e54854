-- ===== src/Instance/Monitor.antt =====
-- `monitor_loop` of crates/nyanpasu-core-manager/src/instance.rs, one step for one turn of its
-- `select!`.
pub mod Data
pub mod Observe
pub mod Turn
