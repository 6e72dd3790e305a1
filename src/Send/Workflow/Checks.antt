-- ===== src/Send/Workflow/Checks.antt =====
-- The reducer's methods on `&self`, which only compute a result (src/wallet/send.rs,
-- `persist_directive`, `journal_record`, `validate_prepared` and the guards of the methods).
use Prim.Native.String.{String}
use text.Mathlib.Text.{◌==◌ as str_eq}
use wallet_engine.Base.{ℕ, Bool, false, ◌&&◌, ◌||◌, not, Option, none, some, ◌==◌, if◌then◌else◌}
use wallet_engine.Base.Interface.{Eq}
use wallet_engine.Base.Results.{Result, ok, err, ok_or, map_err, guard, ◌>>=◌, ◌>>◌}
use wallet_engine.Domain.Journal.{JournalKey, JournalRecord}
use wallet_engine.Domain.Send.{
  TonAddressString, SendRequest, SendExpiration, address_eq, messages_eq, bool_eq,
}
use wallet_engine.Send.Stage.{SendStage, permits_replacement, permits_forced_replacement}
use wallet_engine.Send.Record.{
  FreshSendAccount, needs_state_init, PreparedTransfer, DurableSendRecord, sign_transfer,
  SignedMessageKind, external, internal, kind_eq, SendDirective, SendWorkflowError,
  invalid_transition, prepared_transfer_mismatch, previous_submission_unresolved, invalid_journal,
  read_protected_secret, persist_journal, RecordCodec,
}
use wallet_engine.Send.Journal.{
  journal_schema_version, send_slot, next_journal_version, decode_owned,
}
use wallet_engine.Send.Workflow.Steps.{SendWorkflow}

pub authentication_prompt : String
authentication_prompt = "Authenticate to sign this wallet transaction"

-- The stage that the record stores: the one that the write itself brings about.
unfoldable pub durable_stage : SendStage → SignedMessageKind → SendStage
durable_stage SendStage.persisting_prepared external = SendStage.ready_to_submit
durable_stage SendStage.persisting_prepared internal = SendStage.handed_off
durable_stage stage _ = stage

module _ {A : Type 0} where
  unfoldable pub journal_key : SendWorkflow A → JournalKey
  journal_key w = record { record_id = w.record_id; slot = send_slot }

  unfoldable pub prepared_ref : SendWorkflow A → Result SendWorkflowError (PreparedTransfer A)
  prepared_ref w = ok_or w.prepared (invalid_transition w.stage "prepared_transfer_required")

  unfoldable pub journal_record : SendWorkflow A → PreparedTransfer A → DurableSendRecord A
  unfolding durable_stage
  journal_record w p = record {
    schema_version = journal_schema_version;
    operation_id = p.operation_id;
    record_id = p.record_id;
    source = p.source;
    kind = p.kind;
    messages = p.messages;
    seqno = p.seqno;
    needs_state_init = p.needs_state_init;
    valid_until = p.valid_until;
    signed_boc = p.signed_boc;
    message_hash = p.message_hash;
    stage = durable_stage w.stage w.kind;
    provider_reference = w.provider_reference;
    diagnostic = w.diagnostic;
    confirmed_transaction_hash = none;
    confirmed_transaction_lt = none;
  }

  unfoldable pub read_secret_directive : SendWorkflow A → Result SendWorkflowError (SendDirective A)
  read_secret_directive w = elim w.local_secret_ref [
    | none ↦ err (invalid_transition w.stage "protected_secret_required")
    | some secret ↦ ok (
        read_protected_secret
          (record { secret_ref = secret; reason = sign_transfer; prompt = authentication_prompt }))
  ]

-- `matches!(expiration, Exact { unix_timestamp } if valid_until != unix_timestamp)`
unfoldable pub breaks_expiration : SendExpiration → ℕ → Bool
breaks_expiration SendExpiration.engine_default valid_until = false
breaks_expiration (SendExpiration.exact n) valid_until = not (valid_until == n)

module _ {A : Type 0} ⦃e : Eq A⦄ where
  -- The disjunction of `validate_prepared`; the first four arguments are the workflow's fields.
  unfoldable pub mismatches :
      String
      → TonAddressString A
      → SendRequest A
      → SignedMessageKind
      → FreshSendAccount
      → PreparedTransfer A
      → Bool
  unfolding breaks_expiration needs_state_init
  mismatches record_id source request kind account p =
      not (str_eq p.operation_id request.operation_id)
      || not (str_eq p.record_id record_id)
      || not (address_eq p.source source)
      || not (kind_eq p.kind kind)
      || not (messages_eq p.messages request.intent.messages)
      || breaks_expiration request.intent.expiration p.valid_until
      || not (p.seqno == account.seqno)
      || not (bool_eq p.needs_state_init (needs_state_init account))

  unfoldable pub validate_prepared :
      PreparedTransfer A → SendWorkflow A → Result SendWorkflowError (Unit {0})
  unfolding mismatches
  validate_prepared p w = elim w.fresh_account [
    | none ↦ err prepared_transfer_mismatch
    | some account ↦
        if mismatches w.record_id w.source w.request w.kind account p
        then err prepared_transfer_mismatch
        else ok tt
  ]

module _ {A : Type 0} ⦃e : Eq A⦄ (codec : RecordCodec A) where
  unfoldable pub persist_directive : SendWorkflow A → Result SendWorkflowError (SendDirective A)
  unfolding journal_record prepared_ref journal_key next_journal_version
  persist_directive w = do
    prepared ← prepared_ref w
    version ← next_journal_version w.journal_version
    payload ← map_err invalid_journal (codec.to_vec (journal_record w prepared))
    ok (
        persist_journal (record {
          key = journal_key w;
          expected_version = w.journal_version;
          replacement = record { version = version; payload = payload };
        }))

  -- Whether the stored stage lets this request seed the next version.
  unfoldable pub may_replace : SendWorkflow A → SendStage → Bool
  may_replace w stage =
      permits_replacement stage || w.request.force && permits_forced_replacement stage

  -- The match of `journal_loaded`: the version that the next exchange expects.
  unfoldable pub slot_version :
      Option JournalRecord → SendWorkflow A → Result SendWorkflowError (Option ℕ)
  unfolding decode_owned may_replace
  slot_version none w = ok none
  slot_version (some r) w = do
    durable ← decode_owned codec r w.record_id w.source
    guard (may_replace w durable.stage) previous_submission_unresolved
    ok (some r.version)
