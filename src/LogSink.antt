-- ===== src/LogSink.antt =====
-- The archive of the core's log: crates/nyanpasu-core-manager/src/log_sink.rs.
pub mod Names
pub mod Retention
pub mod Writer
pub mod Drain
