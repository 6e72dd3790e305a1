-- ===== src/Engine/Comment.antt =====
-- Decryption of an encrypted comment (`decrypt_comment` of src/engine/encrypted_comment.rs, and the
-- history that it reads, src/engine/key_history.rs). Other operations may change the state at each
-- `Point`; the cryptography of src/wallet/encrypted_comment.rs is a parameter.

pub mod Pages
pub mod Decryption
pub mod Slot
pub mod Released
pub mod Whole
pub mod Earlier
use wallet_engine.Base.{
  ℕ, zero, suc, ◌+◌, ◌≡◌, Bool, true, false, not, ◌&&◌, ◌||◌, Option, none, some, List, [], ◌∷◌,
  ◌++◌, ◌==◌, leb, if◌then◌else◌, is_some, is_none,
}
use wallet_engine.Base.Bytes.{Bytes, same_bytes}
use wallet_engine.Base.Words.{u64_max, checked_add}
use wallet_engine.Base.Results.{Result, ok, err, ok_or}
use wallet_engine.Types.Texts.{Text, codes}
use wallet_engine.Types.Decimal.{BigUintText}
use wallet_engine.Domain.Diagnostic.{bounded_diagnostic}
use wallet_engine.KeyHistory.{KeyChange, recover_signing_keys}
use wallet_engine.Transport.Request.{HttpRequest, build_toncenter_v3_request}
use wallet_engine.Engine.Snapshot.{HttpRequestId, WalletClientConfig}
use wallet_engine.Engine.State.{
  State, Outcome, WalletClientError, encrypted_comment_unavailable, encrypted_comment_lookup_failed,
  state_unavailable, invalid_protected_secret, local_signing_unavailable, send_already_in_progress,
  identifier_exhausted, OperationFamily, returns, and_then, try_, allocate_request_id, is_current,
  is_generation, ensure_running,
}
use wallet_engine.Engine.SendState.{without_id}
use wallet_engine.Engine.Resolution.{saturating_add}

pub data EncryptedCommentError : Type 0 where
  comment_too_long invalid_mnemonic wallet_identity_mismatch : EncryptedCommentError
  invalid_peer_public_key recipient_public_key_mismatch random_generation : EncryptedCommentError
  invalid_body authentication_failed invalid_utf8 cell_encoding : EncryptedCommentError

-- `EncryptedCommentError::to_string`
unfoldable pub error_text : EncryptedCommentError → Text
error_text comment_too_long = codes "the encrypted comment exceeds 960 UTF-8 bytes"
error_text invalid_mnemonic = codes "the protected mnemonic is invalid"
error_text wallet_identity_mismatch = codes "the protected mnemonic does not belong to this wallet"
error_text invalid_peer_public_key = codes "the peer Ed25519 public key is invalid"
error_text recipient_public_key_mismatch =
    codes
      "the recipient public key does not match a supported wallet address with default parameters"
error_text random_generation = codes "secure random generation failed"
error_text invalid_body = codes "the encrypted comment body is malformed"
error_text authentication_failed = codes "the encrypted comment authentication failed"
error_text invalid_utf8 = codes "the decrypted comment is not valid UTF-8"
error_text cell_encoding = codes "the encrypted comment cell could not be encoded"

unfoldable pub is_key_mismatch : EncryptedCommentError → Bool
is_key_mismatch authentication_failed = true
is_key_mismatch invalid_peer_public_key = true
is_key_mismatch _ = false

-- The match on the result of one key, with what the keys after it give.
unfoldable pub or_next :
    Result EncryptedCommentError Text
    → Result EncryptedCommentError Text
    → Result EncryptedCommentError Text
unfolding is_key_mismatch
or_next (ok comment) rest = ok comment
or_next (err error) rest = if is_key_mismatch error then rest else err error

abbrev pub key_change_page_size : ℕ
key_change_page_size = 100

abbrev pub max_key_change_pages : ℕ
max_key_change_pages = 10

pub record KeyChangePage : Type 0 where
  pub changes : List KeyChange
  pub raw_count : ℕ

unfoldable pub has_more : KeyChangePage → Bool
has_more page = leb key_change_page_size page.raw_count

unfoldable pub history_reaches : List KeyChange → Bytes → Bool
history_reaches [] public_key = false
history_reaches (change ∷ changes) public_key =
    same_bytes change.new_public_key public_key || history_reaches changes public_key

-- Between these sections of a decryption, other operations may change the state.
pub data Point : Type 0 where
  secret_answered own_keys_tried earlier_keys_tried : Point
  page_requested page_answered page_read : ℕ → Point

-- What the platform, the provider and the other operations do during one decryption: the secret or
-- the host's error, each parsed page or the provider's error, and the changes of the state.
pub record World (A : Type 0) : Type 0 where
  pub secret : Result Text Bytes
  pub page : ℕ → Result Text KeyChangePage
  pub others : Point → State A → State A

-- The keys of a secret as (anchor, signing), and the cryptography of a comment from a sender.
pub record CommentHost (A : Type 0) : Type 0 where
  pub sha256 : Bytes → Bytes
  pub verifying_key : Bytes → Bytes
  pub comment_keys : Bytes → WalletClientConfig A → Result EncryptedCommentError (Bytes × Bytes)
  pub validate : Bytes → Result EncryptedCommentError (Unit {0})
  pub decrypt_with_key : Bytes → A → Bytes → Result EncryptedCommentError Text

module _ {A : Type 0} where
  unfoldable pub discard_encrypted_comment_operation : ℕ → State A → State A
  unfolding is_current
  discard_encrypted_comment_operation generation s =
      if is_current s OperationFamily.resolution generation
      then record s { active_resolution = none }
      else s

  unfoldable pub fail_encrypted_comment : {X : Type 0} → ℕ → Text → State A → Outcome A X
  unfolding discard_encrypted_comment_operation bounded_diagnostic
  fail_encrypted_comment generation message s =
      returns (discard_encrypted_comment_operation generation s)
        (err (encrypted_comment_unavailable (bounded_diagnostic message)))

  unfoldable pub fail_encrypted_comment_lookup : {X : Type 0} → ℕ → Text → State A → Outcome A X
  unfolding discard_encrypted_comment_operation bounded_diagnostic
  fail_encrypted_comment_lookup generation message s =
      returns (discard_encrypted_comment_operation generation s)
        (err (encrypted_comment_lookup_failed (bounded_diagnostic message)))

  unfoldable pub ensure_encrypted_comment_current : ℕ → State A → Outcome A (Unit {0})
  unfolding is_current
  ensure_encrypted_comment_current generation s =
      if not (is_current s OperationFamily.resolution generation)
      then returns s (err state_unavailable)
      else returns s (ok tt)

  unfoldable pub complete_encrypted_comment_operation :
      {X : Type 0} → ℕ → Result WalletClientError X → State A → Outcome A X
  unfolding is_current
  complete_encrypted_comment_operation generation result s =
      if not (is_current s OperationFamily.resolution generation)
      then returns s (err state_unavailable)
      else returns (record s { active_resolution = none }) result

  unfoldable pub finish_invalid_protected_secret : {X : Type 0} → ℕ → State A → Outcome A X
  unfolding complete_encrypted_comment_operation
  finish_invalid_protected_secret generation =
      complete_encrypted_comment_operation generation (err invalid_protected_secret)

  -- The slot's request list, if the generation holds the slot.
  unfoldable pub change_resolution :
      (List HttpRequestId → List HttpRequestId)
      → ℕ
      → State A
      → Option (ℕ × List HttpRequestId)
      → Outcome A (Unit {0})
  change_resolution f generation s none = returns s (err state_unavailable)
  change_resolution f generation s (some (active, ids)) =
      if not (active == generation)
      then returns s (err state_unavailable)
      else returns (record s { active_resolution = some (active, f ids) }) (ok tt)

  unfoldable pub start_resolution_request : ℕ → HttpRequestId → State A → Outcome A (Unit {0})
  unfolding change_resolution
  start_resolution_request generation id s =
      change_resolution (λ ids. ids ++ (id ∷ [])) generation s s.active_resolution

  unfoldable pub finish_resolution_request : ℕ → HttpRequestId → State A → Outcome A (Unit {0})
  unfolding change_resolution without_id
  finish_resolution_request generation id s =
      change_resolution (without_id id) generation s s.active_resolution

  -- The error of a section that releases the slot.
  unfoldable pub or_discard : {X : Type 0} → ℕ → Outcome A X → Outcome A X
  unfolding discard_encrypted_comment_operation
  or_discard generation o = elim o.result [
    | ok x ↦ o
    | err e ↦ record {
      state = discard_encrypted_comment_operation generation o.state;
      woken = o.woken;
      result = err e;
    }
  ]
