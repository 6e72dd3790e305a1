-- ===== src/Domain.antt =====
-- Domain types and policies (src/domain).
pub mod Diagnostic
pub mod Send
pub mod Journal
