-- ===== src/Tests/Engine/Resolution.antt =====
-- The resolution of one pending send (src/engine/resolution.rs, src/engine/expiration.rs).
use wallet_engine.Base.{ℕ, ◌≤◌, true, false, ◌≡◌, refl, none, arith}
use wallet_engine.Base.Results.{ok}
use wallet_engine.Domain.Send.{SendExpiration}
use wallet_engine.Send.Record.{external, confirmed, expired}
use wallet_engine.Send.Workflow.Checks.{breaks_expiration}
use wallet_engine.Engine.Resolution.{
  ResolutionAnswers, HostTurn, ResolvedPending, resolution_window_expired, pending_observation,
  by_window, classify_seqno, classify_executed, classify, persist_turn, then_turn, persist_turns,
  persist_send_resolution,
}
use wallet_engine.Engine.Resolution.Evidence.{IsSupported, classify-IsSupported}
use wallet_engine.Engine.Resolution.Persisted.{IsConcluded, persist-IsConcluded}
use wallet_engine.Engine.Expiration.{resolve_send_expiration}
use wallet_engine.Engine.Expiration.Agrees.{resolved_expiration_agrees}
use wallet_engine.Tests.Send.Values.{address_number, wallet_address, hash, codec, codec-IsFaithful}
use wallet_engine.Tests.Send.Resolve.{
  stored, pending, resolved_write, stored-pending, writes_confirmed, small,
}

-- The message is nowhere and the sequence number did not advance.
abbrev answers : ResolutionAnswers
answers = record {
  executed = ok none;
  pending = ok false;
  wallet_state = ok 7;
  executed_recheck = ok none;
}

classified : classify 2000 60 answers external 7 1000 ≡ ok expired
unfolding classify classify_executed pending_observation classify_seqno by_window
    resolution_window_expired
classified = refl

classify-IsSupported_example : IsSupported 2000 60 answers external 7 1000 expired
classify-IsSupported_example =
    classify-IsSupported 2000 60 answers 7 1000 external expired (omega arith) classified

abbrev host : ℕ → HostTurn
host n = record { answer = ok (record { applied = true; current = none }); is_current = true }

abbrev persisted : ResolvedPending
persisted = record { resolution = confirmed hash 42; journal = resolved_write.replacement }

persists : persist_send_resolution codec host pending (confirmed hash 42) ≡ ok persisted
unfolding persist_send_resolution persist_turns persist_turn then_turn
persists = rw writes_confirmed refl

persist-IsConcluded_example : IsConcluded codec "record" wallet_address persisted
persist-IsConcluded_example =
    persist-IsConcluded codec "record" wallet_address host stored pending (confirmed hash 42)
      persisted codec-IsFaithful small stored-pending persists

resolved : resolve_send_expiration (SendExpiration.exact 1500) 1000 300 ≡ ok 1500
unfolding resolve_send_expiration
resolved = refl

resolved_expiration_agrees_example :
    (breaks_expiration (SendExpiration.exact 1500) 1500 ≡ false)
    × (1000 ≤ 1500)
    × (resolution_window_expired 1000 1500 60 ≡ false)
resolved_expiration_agrees_example =
    resolved_expiration_agrees (SendExpiration.exact 1500) 1000 300 60 1500 (omega arith) resolved
