-- ===== src/Send.antt =====
-- The durable send workflow (src/wallet/send.rs).
pub mod Stage
pub mod Record
pub mod Journal
pub mod Workflow
