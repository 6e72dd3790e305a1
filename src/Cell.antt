-- ===== src/Cell.antt =====
-- The validation of an untrusted cell BoC (crates/ton-connect-core/src/cell_boc.rs).
pub mod Reader
pub mod Exotic
pub mod Boc
pub mod Envelope
