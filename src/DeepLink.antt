-- ===== src/DeepLink.antt =====
-- TON Connect links (crates/ton-connect-core/src/deep_link.rs).
pub mod Telegram
pub mod Value
pub mod Link
