-- ===== src/Session.antt =====
-- The durable session state of TON Connect (crates/ton-connect-core/src/session_state.rs).
pub mod RequestId
pub mod State
pub mod Cursor
