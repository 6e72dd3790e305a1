-- ===== src/Engine/State.antt =====
-- The state that one mutex protects (src/engine/state.rs) and the errors of the client
-- (src/domain/error.rs). A method here is one critical section: it returns the state that it leaves
-- behind, the channels that it sent to, and its result. A oneshot channel is a number.
pub mod Sound
pub mod Waiters
pub mod Rules
use Prim.Native.String.{String}
use wallet_engine.Base.{
  ℕ, ◌+◌, Bool, true, false, ◌||◌, Option, none, some, List, [], ◌∷◌, ◌++◌, ltb, ◌==◌,
  if◌then◌else◌,
}
use wallet_engine.Base.Words.{checked_add}
use wallet_engine.Base.Results.{Result, ok, err}
use wallet_engine.Types.Texts.{Text}
use wallet_engine.Domain.Send.{TonAddressString, Boc, Base64Hash, AccountStatus}
use wallet_engine.Send.Workflow.Steps.{SendWorkflow}
use wallet_engine.KeyHistory.{KeyChange}
use wallet_engine.Engine.Snapshot.{
  HttpRequestId, WalletClientConfig, WalletSnapshot, ActivityDirection, ActivityStatus,
  WalletOperationOutcome, WalletUpdate,
}

pub data OperationFamily : Type 0 where
  refresh pagination nft_refresh nft_pagination preview send resolution : OperationFamily

-- src/engine/provider.rs
pub record ActivityRecord (A : Type 0) : Type 0 where
  pub id : Text
  pub transaction_hash : Base64Hash
  pub logical_time : ℕ
  pub timestamp : ℕ
  pub direction : ActivityDirection
  pub amount_nanograms : ℕ
  pub transaction_fee_nanograms : ℕ
  pub status : ActivityStatus
  pub comment : Option String
  pub encrypted_comment : Option Boc
  pub counterparty : Option A

pub record ActivityPageCursor : Type 0 where
  pub logical_time : ℕ
  pub hash : Base64Hash

pub data WalletClientError : Type 0 where
  invalid_local_secret_reference invalid_wallet_public_key : WalletClientError
  wallet_identity_mismatch invalid_provider_base_url invalid_send_request : WalletClientError
  nft_transfer_unavailable nft_transfer_emulation_rejected : Text → WalletClientError
  encrypted_comment_unavailable dns_resolution_unavailable : Text → WalletClientError
  key_rotation_unavailable : Text → WalletClientError
  local_signing_unavailable identifier_exhausted state_unavailable : WalletClientError
  send_already_in_progress send_preview_already_in_progress : WalletClientError
  previous_submission_unresolved wallet_seqno_not_advanced : WalletClientError
  send_account_unavailable : AccountStatus → WalletClientError
  insufficient_balance : ℕ → ℕ → WalletClientError
  insufficient_balance_for_fees : ℕ → ℕ → ℕ → WalletClientError
  invalid_protected_secret : WalletClientError
  send_preview_failed emulation_failed emulation_message_not_accepted : Text → WalletClientError
  emulation_rejected : Text → Option ℕ → Option ℕ → WalletClientError
  send_failed submission_unknown : Text → WalletClientError
  send_cancellation_too_late shutdown : WalletClientError
  encrypted_comment_lookup_failed : Text → WalletClientError

-- A waiter: the revision that it has seen, and its channel.
pub record Waiter : Type 0 where
  pub after : ℕ
  pub channel : ℕ

pub record State (A : Type 0) : Type 0 where
  pub config : WalletClientConfig A
  pub snapshot : WalletSnapshot A
  pub activity : List (ActivityRecord A)
  pub activity_cursor : Option ActivityPageCursor
  pub activity_has_more : Bool
  pub nft_offset : ℕ
  pub nfts_has_more : Bool
  pub key_changes : Option (List KeyChange)
  pub next_id : ℕ
  pub refresh_generation : ℕ
  pub pagination_generation : ℕ
  pub nft_refresh_generation : ℕ
  pub nft_pagination_generation : ℕ
  pub preview_generation : ℕ
  pub send_generation : ℕ
  pub resolution_generation : ℕ
  pub active_refresh : Option (ℕ × List HttpRequestId)
  pub active_pagination : Option (ℕ × HttpRequestId)
  pub active_nft_refresh : Option (ℕ × HttpRequestId)
  pub active_nft_pagination : Option (ℕ × HttpRequestId)
  pub active_preview : Option (ℕ × List HttpRequestId)
  pub active_send : Option (ℕ × List HttpRequestId)
  pub active_resolution : Option (ℕ × List HttpRequestId)
  pub send_commit_started : Bool
  pub send_workflow : Option (SendWorkflow A)
  pub waiters : List Waiter
  pub shutdown : Bool
  pub closing : Bool

-- A critical section: the state after it, the channels that it sent to, and its result.
pub record Outcome (A X : Type 0) : Type 0 where
  pub state : State A
  pub woken : List ℕ
  pub result : Result WalletClientError X

-- `.is_some_and(|active| active.0 == generation)`
unfoldable pub is_generation : {X : Type 0} → Option (ℕ × X) → ℕ → Bool
is_generation none generation = false
is_generation (some (active, ids)) generation = active == generation

-- The loop of `next_revision`: the waiters that stay, and the channels that are sent to.
unfoldable pub sort_waiters : ℕ → List Waiter → List Waiter × List ℕ
sort_waiters revision [] = ([], [])
sort_waiters revision (w ∷ ws) =
    let (pending, woken) = sort_waiters revision ws in
    if ltb w.after revision then (pending, w.channel ∷ woken) else (w ∷ pending, woken)

module _ {A : Type 0} where
  -- A section that changes nothing and wakes nobody.
  abbrev pub returns : {X : Type 0} → State A → Result WalletClientError X → Outcome A X
  returns s x = record { state = s; woken = []; result = x }

  -- `?` on the result of a section, within the section that calls it.
  unfoldable pub and_then : {X Y : Type 0} → Outcome A X → (State A → X → Outcome A Y) → Outcome A Y
  and_then o next = elim o.result [
    | err x ↦ record { state = o.state; woken = o.woken; result = err x }
    | ok v ↦
        let p = next o.state v in
        record { state = p.state; woken = o.woken ++ p.woken; result = p.result }
  ]

  -- `?` on a result.
  unfoldable pub try_ :
      {X Y : Type 0} → State A → Result WalletClientError X → (X → Outcome A Y) → Outcome A Y
  try_ s r next = elim r [ ok v ↦ next v | err x ↦ returns s (err x) ]

  unfoldable pub allocate_request_id : State A → Outcome A HttpRequestId
  allocate_request_id s = elim (checked_add s.next_id 1) [
    | none ↦ returns s (err identifier_exhausted)
    | some next ↦ returns (record s { next_id = next }) (ok (record { value = s.next_id }))
  ]

  unfoldable pub with_revision : State A → ℕ → State A
  unfolding sort_waiters
  with_revision s revision = record s {
    snapshot = record (s.snapshot) { revision = revision };
    waiters = (sort_waiters revision s.waiters).0;
  }

  unfoldable pub next_revision : State A → Outcome A (Unit {0})
  unfolding with_revision
  next_revision s = elim (checked_add s.snapshot.revision 1) [
    | none ↦ returns s (err identifier_exhausted)
    | some revision ↦ record {
      state = with_revision s revision;
      woken = (sort_waiters revision s.waiters).1;
      result = ok tt;
    }
  ]

  unfoldable pub is_current : State A → OperationFamily → ℕ → Bool
  unfolding is_generation
  is_current s OperationFamily.refresh generation = is_generation s.active_refresh generation
  is_current s OperationFamily.pagination generation = is_generation s.active_pagination generation
  is_current s OperationFamily.nft_refresh generation =
      is_generation s.active_nft_refresh generation
  is_current s OperationFamily.nft_pagination generation =
      is_generation s.active_nft_pagination generation
  is_current s OperationFamily.preview generation = is_generation s.active_preview generation
  is_current s OperationFamily.send generation = is_generation s.active_send generation
  is_current s OperationFamily.resolution generation = is_generation s.active_resolution generation

  unfoldable pub ensure_running : State A → Result WalletClientError (Unit {0})
  ensure_running s = if s.closing || s.shutdown then err shutdown else ok tt

  -- `update` and `nft_update`
  unfoldable pub update : WalletOperationOutcome → ℕ → State A → WalletUpdate A
  update outcome added s = record {
    outcome = outcome;
    activity_items_added = added;
    nft_items_added = 0;
    snapshot = s.snapshot;
  }

  unfoldable pub nft_update : WalletOperationOutcome → ℕ → State A → WalletUpdate A
  nft_update outcome added s = record {
    outcome = outcome;
    activity_items_added = 0;
    nft_items_added = added;
    snapshot = s.snapshot;
  }
