-- ===== src/Tests/Send/Values.antt =====
-- The values of the runs: one wallet, one transfer, and a codec that writes that transfer's records.
use Prim.Native.String.{String}
use mathlib.Core.Logic.{ite, if_pos, if_neg}
use native.Mathlib.Decide.{ℕ_discrete}
use text.Mathlib.Text.{◌==◌ as str_eq}
use text.Mathlib.TextEquality.{eq_iff}
use wallet_engine.Base.{
  Bool-cases, inl, inr, if◌then◌else◌, ℕ, ◌≡◌, refl, Bool, true, false, Option, none, some, List,
  [], ◌∷◌, arith, ◌==◌, ==_refl,
}
use wallet_engine.Base.Interface.{Eq}
use wallet_engine.Base.Results.{Result, ok, err}
use wallet_engine.Domain.Send.{
  TonAddressString, SendRequest, SendMessage, SendExpiration, SendAmount, SendMessageBody, Boc,
  Base64Hash, active,
}
use wallet_engine.Send.Stage.{SendStage}
use wallet_engine.Send.Record.{
  DurableSendRecord, PreparedTransfer, FreshSendAccount, RecordCodec, IsFaithful, external,
}

String-discrete : Discrete String
String-discrete a b = elim (Bool-cases (str_eq a b)) [
  | inl same ↦ yes ((eq_iff a b).0 same)
  | inr other ↦ no (λ e. cc ((eq_iff a b).1 e))
]

DurableSendRecord-discrete : Discrete (DurableSendRecord ℕ)
DurableSendRecord-discrete = hlevel (ℕ_discrete, String-discrete)

pub symmetric : (a b : ℕ) → (a == b) ≡ true → (b == a) ≡ true
symmetric a b h = ground arith

pub transitive : (a b c : ℕ) → (a == b) ≡ true → (b == c) ≡ true → (a == c) ≡ true
transitive a b c h k = ground arith

instance abbrev pub address_number : Eq ℕ
address_number = record {
  beq = ◌==◌;
  beq_refl = ==_refl;
  beq_symm = symmetric;
  beq_trans = transitive;
}

abbrev pub wallet_address : TonAddressString ℕ
wallet_address = record { value = "0:11"; address = 11 }

abbrev pub message : SendMessage ℕ
message = record {
  destination = record { value = "0:22"; address = 22 };
  amount = SendAmount.exact 500;
  body = SendMessageBody.comment "hello";
  bounce = false;
  state_init = none;
}

abbrev pub request_of : Bool → SendRequest ℕ
request_of force = record {
  operation_id = "operation";
  force = force;
  intent = record { expiration = SendExpiration.engine_default; messages = message ∷ [] };
}

abbrev pub account : FreshSendAccount
account = record { status = active; seqno = 7 }

abbrev pub signed : Boc
signed = record { bytes = 1 ∷ 2 ∷ 3 ∷ [] }

abbrev pub hash : Base64Hash
hash = record { text = "hash" }

abbrev pub transfer : PreparedTransfer ℕ
transfer = record {
  operation_id = "operation";
  record_id = "record";
  source = wallet_address;
  kind = external;
  messages = message ∷ [];
  seqno = 7;
  needs_state_init = false;
  valid_until = 1000;
  signed_boc = signed;
  message_hash = hash;
}

-- The record of the transfer at a stage, with the evidence of a resolution.
abbrev pub record_at : SendStage → Option Base64Hash → Option ℕ → DurableSendRecord ℕ
record_at stage evidence lt = record {
  schema_version = 5;
  operation_id = "operation";
  record_id = "record";
  source = wallet_address;
  kind = external;
  messages = message ∷ [];
  seqno = 7;
  needs_state_init = false;
  valid_until = 1000;
  signed_boc = signed;
  message_hash = hash;
  stage = stage;
  provider_reference = none;
  diagnostic = none;
  confirmed_transaction_hash = evidence;
  confirmed_transaction_lt = lt;
}

-- Two records have a text: the signed one and the confirmed one.
abbrev pub signed_record : DurableSendRecord ℕ
signed_record = record_at SendStage.ready_to_submit none none

abbrev pub confirmed_record : DurableSendRecord ℕ
confirmed_record = record_at SendStage.confirmed (some hash) (some 42)

pub write : DurableSendRecord ℕ → Result String (List ℕ)
write r =
    ite (DurableSendRecord-discrete r signed_record) (ok (1 ∷ []))
      (ite (DurableSendRecord-discrete r confirmed_record) (ok (2 ∷ [])) (err "no text"))

unfoldable pub read : List ℕ → Result String (DurableSendRecord ℕ)
read [] = err "no record"
read (n ∷ rest) = if n == 1 then ok signed_record else ok confirmed_record

abbrev pub codec : RecordCodec ℕ
codec = record { to_vec = write; from_slice = read }

read_signed :
    (payload : List ℕ)
    → ◌≡◌ {A = Result String (List ℕ)} (ok (1 ∷ [])) (ok payload)
    → read payload ≡ ok signed_record
unfolding read
read_signed payload h = ground arith

read_confirmed :
    (payload : List ℕ)
    → ◌≡◌ {A = Result String (List ℕ)} (ok (2 ∷ [])) (ok payload)
    → read payload ≡ ok confirmed_record
unfolding read
read_confirmed payload h = ground arith

pub codec-IsFaithful : IsFaithful codec
unfolding write read
codec-IsFaithful r payload h = elim (DurableSendRecord-discrete r signed_record) [
  | yes e ↦
      let h' : ◌≡◌ {A = Result String (List ℕ)} (ok (1 ∷ [])) (ok payload) = rw (if_pos _ e) at h in
      rw e (read_signed payload h')
  | no n ↦ elim (DurableSendRecord-discrete r confirmed_record) [
    | yes e ↦
        let h' : ◌≡◌ {A = Result String (List ℕ)} (ok (2 ∷ [])) (ok payload) =
          rw (if_neg _ n, if_pos _ e) at h in
        rw e (read_confirmed payload h')
    | no m ↦ absurd (cc (rw (if_neg _ n, if_neg _ m) at h))
  ]
]

pub write_signed : write signed_record ≡ ok (1 ∷ [])
unfolding write
write_signed = rw (if_pos _ refl)

confirmed-ne-signed : ¬ (confirmed_record ≡ signed_record)
confirmed-ne-signed e = cc

pub write_confirmed : write confirmed_record ≡ ok (2 ∷ [])
unfolding write
write_confirmed = rw (if_neg _ confirmed-ne-signed, if_pos _ refl)
