-- ===== src/Send/Record.antt =====
-- The values of the send reducer (src/wallet/send.rs): the prepared transfer, the durable record,
-- directives and errors. `A` is ton_core's parsed address.
use Prim.Native.String.{String}
use wallet_engine.Base.{ℕ, ◌≡◌, Bool, true, false, ◌&&◌, ◌||◌, not, Option, List, ◌==◌}
use wallet_engine.Base.Results.{Result, ok}
use wallet_engine.Types.Texts.{Text}
use wallet_engine.Domain.Journal.{JournalKey, JournalCompareExchange}
use wallet_engine.Domain.Send.{
  TonAddressString, Boc, Base64Hash, SendMessage, SendRequest, AccountStatus, PendingReason, active,
  nonexistent, uninitialized,
}
use wallet_engine.Send.Stage.{SendStage}

pub record FreshSendAccount : Type 0 where
  pub status : AccountStatus
  pub seqno : ℕ

abbrev pub is_active : AccountStatus → Bool
is_active active = true
is_active _ = false

abbrev pub is_undeployed : AccountStatus → Bool
is_undeployed nonexistent = true
is_undeployed uninitialized = true
is_undeployed _ = false

unfoldable pub permits_send : FreshSendAccount → Bool
permits_send a = is_active a.status || a.seqno == 0 && is_undeployed a.status

unfoldable pub needs_state_init : FreshSendAccount → Bool
needs_state_init a = not (is_active a.status)

pub data SignedMessageKind : Type 0 where
  external internal : SignedMessageKind

abbrev pub kind_eq : SignedMessageKind → SignedMessageKind → Bool
kind_eq external external = true
kind_eq internal internal = true
kind_eq _ _ = false

pub record PreparedTransfer (A : Type 0) : Type 0 where
  pub operation_id : String
  pub record_id : String
  pub source : TonAddressString A
  pub kind : SignedMessageKind
  pub messages : List (SendMessage A)
  pub seqno : ℕ
  pub needs_state_init : Bool
  pub valid_until : ℕ
  pub signed_boc : Boc
  pub message_hash : Base64Hash

pub record DurableSendRecord (A : Type 0) : Type 0 where
  pub schema_version : ℕ
  pub operation_id : String
  pub record_id : String
  pub source : TonAddressString A
  pub kind : SignedMessageKind
  pub messages : List (SendMessage A)
  pub seqno : ℕ
  pub needs_state_init : Bool
  pub valid_until : ℕ
  pub signed_boc : Boc
  pub message_hash : Base64Hash
  pub stage : SendStage
  pub provider_reference : Option Text
  pub diagnostic : Option Text
  pub confirmed_transaction_hash : Option Base64Hash
  pub confirmed_transaction_lt : Option ℕ

-- src/domain/secret.rs
pub record ProtectedSecretRef : Type 0 where
  pub value : String

pub data SecretAccessReason : Type 0 where
  create_wallet sign_transfer sign_ton_connect_proof prepare_key_rotation : SecretAccessReason
  encrypt_comment decrypt_comment reveal_recovery_phrase : SecretAccessReason
  derive_ton_connect_session_key sign_ton_connect_data : SecretAccessReason

pub record ProtectedSecretRead : Type 0 where
  pub secret_ref : ProtectedSecretRef
  pub reason : SecretAccessReason
  pub prompt : String

pub data SendDirective (A : Type 0) : Type 0 where
  load_journal : JournalKey → SendDirective A
  fetch_fresh_account : SendDirective A
  read_protected_secret : ProtectedSecretRead → SendDirective A
  prepare_transfer : SendRequest A → FreshSendAccount → SendDirective A
  persist_journal : JournalCompareExchange → SendDirective A
  submit : Boc → Base64Hash → SendDirective A
  hand_off : Boc → ℕ → SendDirective A
  finished : SendDirective A

pub data SendWorkflowError : Type 0 where
  invalid_transition : SendStage → String → SendWorkflowError
  prepared_transfer_mismatch : SendWorkflowError
  journal_conflict : SendWorkflowError
  previous_submission_unresolved : SendWorkflowError
  account_unavailable : AccountStatus → SendWorkflowError
  invalid_journal : String → SendWorkflowError

pub data SendResolution : Type 0 where
  confirmed : Base64Hash → ℕ → SendResolution
  replaced sequence_number_consumed expired : SendResolution
  still_pending : PendingReason → SendResolution

-- serde_json's `to_vec` and `from_slice` at the durable record, with the text of their errors.
pub record RecordCodec (A : Type 0) : Type 0 where
  pub to_vec : DurableSendRecord A → Result String (List ℕ)
  pub from_slice : List ℕ → Result String (DurableSendRecord A)

-- What serde documents of derived implementations: what was written is read back.
abbrev pub IsFaithful : {A : Type 0} → RecordCodec A → Type 0
IsFaithful {A} codec =
    (r : DurableSendRecord A) (payload : List ℕ)
    → codec.to_vec r ≡ ok payload
    → codec.from_slice payload ≡ ok r
