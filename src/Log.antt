-- ===== src/Log.antt =====
-- Core console logs: crates/nyanpasu-core-manager/src/log.rs and
-- crates/nyanpasu-core-metadata/src/log.rs.
pub mod Frame
pub mod Ansi
pub mod Parser
pub mod Summary
pub mod Logfmt
pub mod Headers
