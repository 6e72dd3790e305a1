-- ===== src/Engine/Expiration/Agrees.antt =====
-- The boundary of src/engine/expiration.rs against the reducer's check of it (src/wallet/send.rs) and
-- the resolver's window (src/engine/resolution.rs).
use wallet_engine.Base.{ℕ, ◌≤◌, false, ◌≡◌, arith}
use wallet_engine.Base.Words.{u64_max}
use wallet_engine.Base.Results.{ok}
use wallet_engine.Domain.Send.{SendExpiration}
use wallet_engine.Send.Workflow.Checks.{breaks_expiration}
use wallet_engine.Engine.Resolution.{resolution_window_expired}
use wallet_engine.Engine.Expiration.{resolve_send_expiration}

-- A boundary that is resolved for a request is one that the reducer accepts for it, is not before the
-- provider's time, and is not expired for the resolver at that time, whatever the margin.
pub resolved_expiration_agrees :
    (expiration : SendExpiration) (provider_time validity margin valid_until : ℕ)
    → provider_time ≤ u64_max
    → resolve_send_expiration expiration provider_time validity ≡ ok valid_until
    → (breaks_expiration expiration valid_until ≡ false)
      × (provider_time ≤ valid_until)
      × (resolution_window_expired provider_time valid_until margin ≡ false)
unfolding resolve_send_expiration breaks_expiration resolution_window_expired
resolved_expiration_agrees SendExpiration.engine_default t d m v small h = ground arith
resolved_expiration_agrees (SendExpiration.exact n) t d m v small h = ground arith
