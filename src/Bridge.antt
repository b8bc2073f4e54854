-- ===== src/Bridge.antt =====
-- The service's view of the core manager: manager_bridge.rs of
-- crates/nyanpasu-service-runtime/src/server, with the wire types of nyanpasu_ipc/src/api.
pub mod Wire
pub mod Project
pub mod Events
mod Tests
