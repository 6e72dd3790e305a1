-- ===== src/Engine/Resolution.antt =====
-- The classification of a pending send from provider evidence, and its persistence
-- (src/engine/resolution.rs). The provider's parsed answers and the host's answers are arguments; an
-- answer that the code does not ask for is not read.

pub mod Evidence
pub mod Persisted
use Prim.Native.Nat.{min}
use Prim.Native.String.{String}
use text.Mathlib.Text.{◌==◌ as str_eq}
use wallet_engine.Base.{
  ℕ, zero, suc, ◌+◌, ◌^◌, ◌-◌, Bool, true, false, ◌&&◌, ◌||◌, not, Option, none, some, List, ltb,
  ◌==◌, ◌⊎◌, inl, inr, if◌then◌else◌,
}
use wallet_engine.Base.Words.{u64_max}
use wallet_engine.Base.Interface.{Eq}
use wallet_engine.Base.Results.{Result, ok, err, ok_or, map_err, guard, ◌>>=◌, ◌>>◌}
use wallet_engine.Domain.Journal.{
  JournalRecord, JournalCompareExchange, JournalCompareExchangeResult,
}
use wallet_engine.Domain.Send.{Base64Hash, in_mempool, awaiting_window}
use wallet_engine.Send.Record.{
  SignedMessageKind, external, internal, SendResolution, confirmed, replaced,
  sequence_number_consumed, expired, still_pending, SendWorkflowError, RecordCodec,
}
use wallet_engine.Send.Journal.{
  PendingSendRecord, terminal_mutation, terminal_send_resolution, pending_send_record,
  current_journal,
}
use wallet_engine.Engine.Snapshot.{DomainError}

-- src/engine/resolution_http.rs
pub record ExecutedMessage : Type 0 where
  pub transaction_hash : Base64Hash
  pub transaction_lt : ℕ

-- The parsed answers to the four requests of `ResolutionRequests`.
pub record ResolutionAnswers : Type 0 where
  pub executed : Result DomainError (Option ExecutedMessage)
  pub pending : Result DomainError Bool
  pub wallet_state : Result DomainError ℕ
  pub executed_recheck : Result DomainError (Option ExecutedMessage)

-- How a resolution fails: by a provider's answer, by the reducer's error, or by a message of its own.
pub data ResolutionError : Type 0 where
  provider : DomainError → ResolutionError
  workflow : SendWorkflowError → ResolutionError
  failed : String → ResolutionError
  superseded : ResolutionError

pub record ResolvedPending : Type 0 where
  pub resolution : SendResolution
  pub journal : JournalRecord

-- `u64::saturating_add`
abbrev pub saturating_add : ℕ → ℕ → ℕ
saturating_add a b = min (a + b) u64_max

unfoldable pub resolution_window_expired : (provider_time valid_until margin_seconds : ℕ) → Bool
resolution_window_expired provider_time valid_until margin_seconds =
    ltb (saturating_add valid_until margin_seconds) provider_time

-- `matches!(error.provider_status, Some(404 | 405))`
unfoldable pub lacks_capability : Option ℕ → Bool
lacks_capability none = false
lacks_capability (some status) = status == 404 || status == 405

-- `(is_pending, pending_observed)`
unfoldable pub pending_observation : Result DomainError Bool → Bool × Bool
unfolding lacks_capability
pending_observation (ok is_pending) = (is_pending, true)
pending_observation (err error) = (false, lacks_capability error.provider_status)

unfoldable pub confirmation : ExecutedMessage → SendResolution
confirmation e = confirmed e.transaction_hash e.transaction_lt

-- The end of both branches, when no stronger evidence was found.
unfoldable pub by_window : Bool → (provider_time valid_until margin_seconds : ℕ) → SendResolution
unfolding resolution_window_expired
by_window observed provider_time valid_until margin_seconds =
    if observed && resolution_window_expired provider_time valid_until margin_seconds
    then expired
    else still_pending awaiting_window

-- The recheck after the sequence number advanced.
unfoldable pub by_recheck : Option ExecutedMessage → SendResolution
unfolding confirmation
by_recheck (some e) = confirmation e
by_recheck none = replaced

module _ (provider_time margin_seconds : ℕ) (answers : ResolutionAnswers) where
  unfoldable pub classify_internal : (seqno valid_until : ℕ) → Result DomainError SendResolution
  unfolding by_window
  classify_internal seqno valid_until = do
    indexed_seqno ← answers.wallet_state
    ok (
        if ltb seqno indexed_seqno
        then sequence_number_consumed
        else by_window true provider_time valid_until margin_seconds)

  -- The part after the pending transactions were asked for.
  unfoldable pub classify_seqno :
      (observed : Bool) → (seqno valid_until : ℕ) → Result DomainError SendResolution
  unfolding by_window by_recheck
  classify_seqno observed seqno valid_until = do
    indexed_seqno ← answers.wallet_state
    if ltb seqno indexed_seqno
        then (do executed ← answers.executed_recheck; ok (by_recheck executed))
        else ok (by_window observed provider_time valid_until margin_seconds)

  -- The part after the message was looked up.
  unfoldable pub classify_executed :
      Option ExecutedMessage → (seqno valid_until : ℕ) → Result DomainError SendResolution
  unfolding confirmation pending_observation classify_seqno
  classify_executed (some e) seqno valid_until = ok (confirmation e)
  classify_executed none seqno valid_until =
      let (is_pending, observed) = pending_observation answers.pending in
      if is_pending
      then ok (still_pending in_mempool)
      else classify_seqno observed seqno valid_until

  unfoldable pub classify :
      SignedMessageKind → (seqno valid_until : ℕ) → Result DomainError SendResolution
  unfolding classify_internal classify_executed
  classify internal seqno valid_until = classify_internal seqno valid_until
  classify external seqno valid_until = do
    executed ← answers.executed
    classify_executed executed seqno valid_until

-- One turn's answer of the host, and whether the operation is still current after it.
pub record HostTurn : Type 0 where
  pub answer : Result String JournalCompareExchangeResult
  pub is_current : Bool

module _ {A : Type 0} where
  unfoldable pub same_message : PendingSendRecord A → PendingSendRecord A → Bool
  same_message p q =
      str_eq p.operation_id q.operation_id && str_eq p.message_hash.text q.message_hash.text

module _ {A : Type 0} ⦃e : Eq A⦄ (codec : RecordCodec A) where
  -- The record to try again, when the winner of the exchange concluded nothing.
  unfoldable pub retried :
      JournalRecord
      → PendingSendRecord A
      → Result ResolutionError (ResolvedPending ⊎ PendingSendRecord A)
  unfolding same_message
  retried current p = do
    found ← map_err workflow (pending_send_record codec current p.record_id p.source)
    next ← ok_or found (failed "send journal changed during resolution")
    guard (same_message next p) (failed "another send replaced the journal during resolution")
    ok (inr next)

  unfoldable pub by_winner :
      Option SendResolution
      → JournalRecord
      → PendingSendRecord A
      → Result ResolutionError (ResolvedPending ⊎ PendingSendRecord A)
  unfolding retried
  by_winner (some resolution) current p =
      ok (inl (record { resolution = resolution; journal = current }))
  by_winner none current p = retried current p

  -- What follows an exchange that lost: a conclusion of the winner, or the record to try again.
  unfoldable pub after_conflict :
      JournalRecord
      → PendingSendRecord A
      → Result ResolutionError (ResolvedPending ⊎ PendingSendRecord A)
  unfolding by_winner
  after_conflict current p = do
    concluded ← map_err workflow (terminal_send_resolution codec current p.record_id p.source)
    by_winner concluded current p

  -- One turn of the loop of `persist_send_resolution`.
  unfoldable pub persist_turn :
      HostTurn
      → PendingSendRecord A
      → SendResolution
      → Result ResolutionError (ResolvedPending ⊎ PendingSendRecord A)
  unfolding after_conflict
  persist_turn turn p resolution = do
    written ← map_err workflow (terminal_mutation codec p resolution)
    mutation ← ok_or written (failed "pending resolution was not terminal")
    result ← map_err failed turn.answer
    guard turn.is_current superseded
    if result.applied
        then ok (inl (record { resolution = resolution; journal = mutation.replacement }))
        else (do
          current ← ok_or result.current (failed "send journal disappeared during resolution")
          after_conflict current p)

module _ {A : Type 0} ⦃e : Eq A⦄ (codec : RecordCodec A) (host : ℕ → HostTurn) where
  -- After one turn: the result, or another turn.
  unfoldable pub then_turn :
      (PendingSendRecord A → Result ResolutionError ResolvedPending)
      → ResolvedPending ⊎ PendingSendRecord A
      → Result ResolutionError ResolvedPending
  then_turn again (inl done) = ok done
  then_turn again (inr next) = again next

  -- `turns` turns are left.
  unfoldable pub persist_turns :
      ℕ → PendingSendRecord A → SendResolution → Result ResolutionError ResolvedPending
  unfolding persist_turn then_turn
  persist_turns zero p resolution = err (failed "send journal remained contended during resolution")
  persist_turns (suc turns) p resolution = do
    outcome ← persist_turn codec (host turns) p resolution
    then_turn (λ next. persist_turns turns next resolution) outcome

  unfoldable pub persist_send_resolution :
      PendingSendRecord A → SendResolution → Result ResolutionError ResolvedPending
  unfolding persist_turns
  persist_send_resolution = persist_turns 3

  -- A pending result keeps the journal as it was inspected.
  unfoldable pub conclude :
      PendingSendRecord A → SendResolution → Result ResolutionError ResolvedPending
  unfolding persist_send_resolution current_journal
  conclude p (still_pending reason) =
      ok (record { resolution = still_pending reason; journal = current_journal p })
  conclude p resolution = persist_send_resolution p resolution

  unfoldable pub resolve_pending_with_owner :
      (provider_time margin_seconds : ℕ)
      → ResolutionAnswers
      → PendingSendRecord A
      → Result ResolutionError ResolvedPending
  unfolding classify conclude
  resolve_pending_with_owner provider_time margin_seconds answers p = do
    resolution ←
        map_err provider
          (classify provider_time margin_seconds answers p.kind p.seqno p.valid_until)
    conclude p resolution
