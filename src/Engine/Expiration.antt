-- ===== src/Engine/Expiration.antt =====
-- The validity boundary that a send signs (src/engine/expiration.rs).
pub mod Agrees
use wallet_engine.Base.{ℕ, ltb, if◌then◌else◌}
use wallet_engine.Base.Words.{checked_add}
use wallet_engine.Base.Results.{Result, ok, err, ok_or}
use wallet_engine.Domain.Send.{SendExpiration}

pub data SendExpirationError : Type 0 where
  not_after_provider_time overflow : SendExpirationError

unfoldable pub resolve_send_expiration :
    SendExpiration → (provider_time default_validity_seconds : ℕ) → Result SendExpirationError ℕ
resolve_send_expiration SendExpiration.engine_default provider_time default_validity_seconds =
    ok_or (checked_add provider_time default_validity_seconds) overflow
resolve_send_expiration (SendExpiration.exact unix_timestamp) provider_time
      default_validity_seconds =
    if ltb provider_time unix_timestamp then ok unix_timestamp else err not_after_provider_time
