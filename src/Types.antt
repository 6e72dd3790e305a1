-- ===== src/Types.antt =====
-- Values validated at the portable boundary (src/types).
pub mod Texts
pub mod Digits
pub mod Utf8
pub mod Decimal
pub mod Value
