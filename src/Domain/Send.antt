-- ===== src/Domain/Send.antt =====
-- The transfer intent and the send snapshot (src/domain/send.rs, src/domain/activity.rs), and the
-- boundary values that they hold (src/types). `A` is ton_core's parsed address.
pub mod Intent
use Prim.Native.String.{String}
use text.Mathlib.Text.{◌==◌ as str_eq}
use wallet_engine.Base.{
  ℕ, ◌+◌, Bool, true, false, ◌&&◌, ◌||◌, Option, none, some, List, [], ◌∷◌, length, ltb, ◌==◌,
  if◌then◌else◌,
}
use wallet_engine.Base.Interface.{Eq}
use wallet_engine.Base.Results.{Result, ok, err}
use wallet_engine.Types.Texts.{Text, text_eq}

-- src/types/address.rs: the original spelling and the parsed address.
pub record TonAddressString (A : Type 0) : Type 0 where
  pub value : String
  pub address : A

-- src/types/boc.rs
pub record Boc : Type 0 where
  pub bytes : List ℕ

-- src/types/base64_hash.rs
pub record Base64Hash : Type 0 where
  pub text : String

pub data SendAmount : Type 0 where
  exact : ℕ → SendAmount
  all : SendAmount

pub data SendMessageBody : Type 0 where
  empty : SendMessageBody
  comment : String → SendMessageBody
  raw_payload : Boc → SendMessageBody

pub record SendMessage (A : Type 0) : Type 0 where
  pub destination : TonAddressString A
  pub amount : SendAmount
  pub body : SendMessageBody
  pub bounce : Bool
  pub state_init : Option Boc

pub data SendExpiration : Type 0 where
  engine_default : SendExpiration
  exact : ℕ → SendExpiration

pub record SendIntent (A : Type 0) : Type 0 where
  pub expiration : SendExpiration
  pub messages : List (SendMessage A)

pub record SendRequest (A : Type 0) : Type 0 where
  pub operation_id : String
  pub force : Bool
  pub intent : SendIntent A

pub data SendIntentError : Type 0 where
  invalid_message_count whole_balance_in_batch : SendIntentError

-- src/domain/activity.rs
pub data AccountStatus : Type 0 where
  nonexistent uninitialized active frozen unknown : AccountStatus

pub data SendPhase : Type 0 where
  idle validating authorizing preparing persisting ready_to_submit submitting : SendPhase
  submission_unknown submitted handed_off confirmed replaced : SendPhase
  sequence_number_consumed expired superseded failed cancelled : SendPhase

pub data PendingReason : Type 0 where
  in_mempool awaiting_window : PendingReason

pub record ResolutionInfo : Type 0 where
  pub transaction_hash : Option Base64Hash
  pub transaction_lt : Option ℕ
  pub pending_reason : Option PendingReason
  pub can_force_retry : Bool
  pub retry_after_hint_ms : Option ℕ

pub record SendSnapshot : Type 0 where
  pub operation_id : Option String
  pub phase : SendPhase
  pub error_message : Option Text
  pub resolution : Option ResolutionInfo

-- The derived `PartialEq` of each type; two addresses are equal if the parsed addresses are.
unfoldable pub boc_eq : Boc → Boc → Bool
boc_eq a b = text_eq a.bytes b.bytes

unfoldable pub option_eq : Option Boc → Option Boc → Bool
option_eq none none = true
option_eq none (some b) = false
option_eq (some a) none = false
option_eq (some a) (some b) = boc_eq a b

unfoldable pub amount_eq : SendAmount → SendAmount → Bool
amount_eq all all = true
amount_eq all (exact n) = false
amount_eq (exact m) all = false
amount_eq (exact m) (exact n) = m == n

unfoldable pub body_eq : SendMessageBody → SendMessageBody → Bool
body_eq empty empty = true
body_eq (comment s) (comment t) = str_eq s t
body_eq (raw_payload a) (raw_payload b) = boc_eq a b
body_eq _ _ = false

abbrev pub bool_eq : Bool → Bool → Bool
bool_eq true b = b
bool_eq false true = false
bool_eq false false = true

module _ {A : Type 0} ⦃e : Eq A⦄ where
  unfoldable pub address_eq : TonAddressString A → TonAddressString A → Bool
  address_eq a b = e.beq a.address b.address

  unfoldable pub message_eq : SendMessage A → SendMessage A → Bool
  message_eq a b =
      address_eq a.destination b.destination
      && amount_eq a.amount b.amount
      && body_eq a.body b.body
      && bool_eq a.bounce b.bounce
      && option_eq a.state_init b.state_init

  unfoldable pub messages_eq : List (SendMessage A) → List (SendMessage A) → Bool
  messages_eq [] [] = true
  messages_eq [] (y ∷ ys) = false
  messages_eq (x ∷ xs) [] = false
  messages_eq (x ∷ xs) (y ∷ ys) = message_eq x y && messages_eq xs ys

abbrev pub is_all : SendAmount → Bool
is_all all = true
is_all (exact n) = false

module _ {A : Type 0} where
  unfoldable pub any_all : List (SendMessage A) → Bool
  any_all [] = false
  any_all (m ∷ ms) = is_all m.amount || any_all ms

  -- The loop of `exact_value_total`; it ends at the first whole-balance message.
  unfoldable pub total_from : ℕ → List (SendMessage A) → Option ℕ
  total_from total [] = some total
  total_from total (m ∷ ms) = elim m.amount [ exact n ↦ total_from (total + n) ms | all ↦ none ]

  unfoldable pub exact_value_total : SendIntent A → Result SendIntentError (Option ℕ)
  unfolding any_all total_from
  exact_value_total i =
      if length i.messages == 0 || ltb 255 (length i.messages)
      then err invalid_message_count
      else if ltb 1 (length i.messages) && any_all i.messages
      then err whole_balance_in_batch
      else ok (total_from 0 i.messages)
