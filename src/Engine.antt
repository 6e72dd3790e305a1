-- ===== src/Engine.antt =====
-- The wallet client's state and its operations under the mutex (src/engine).
pub mod Snapshot
pub mod State
pub mod SendState
pub mod Client
pub mod Activity
pub mod Loading
pub mod Comment
pub mod Sections
pub mod Resolution
pub mod Expiration
