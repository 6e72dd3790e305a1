-- ===== src/Send/Journal.antt =====
-- Reading and resolving the durable send record (src/wallet/send.rs, `decode_durable_record`,
-- `PendingSendRecord` and the functions that read a journal record).
pub mod Resolve
pub mod Owner
use Prim.Native.String.{String}
use text.Mathlib.Text.{◌==◌ as str_eq}
use wallet_engine.Base.{
  ℕ, ◌^◌, Bool, true, false, ◌&&◌, ◌||◌, not, Option, none, some, ltb, ◌==◌, if◌then◌else◌, is_some,
  is_none,
}
use wallet_engine.Base.Interface.{Eq}
use wallet_engine.Base.Words.{checked_add}
use wallet_engine.Base.Results.{Result, ok, ok_or, map_err, guard, ◌>>=◌, ◌>>◌}
use wallet_engine.Domain.Journal.{JournalRecord, JournalCompareExchange}
use wallet_engine.Domain.Send.{
  TonAddressString, Base64Hash, SendPhase, SendSnapshot, ResolutionInfo, PendingReason,
  awaiting_window, address_eq,
}
use wallet_engine.Send.Stage.{
  SendStage, permits_replacement, permits_forced_replacement, public_phase,
}
use wallet_engine.Send.Record.{
  DurableSendRecord, SendWorkflowError, SendResolution, SignedMessageKind, RecordCodec,
  invalid_journal, confirmed, replaced, sequence_number_consumed, expired, still_pending,
}

abbrev pub journal_schema_version : ℕ
journal_schema_version = 5

abbrev pub first_journal_version : ℕ
first_journal_version = 1

pub send_slot : String
send_slot = "outgoing-transfer"

unfoldable pub next_journal_version : Option ℕ → Result SendWorkflowError ℕ
next_journal_version (some version) =
    ok_or (checked_add version 1) (invalid_journal "version exhausted")
next_journal_version none = ok first_journal_version

abbrev pub is_confirmed : SendStage → Bool
is_confirmed SendStage.confirmed = true
is_confirmed _ = false

-- `lt.is_none_or(|lt| lt.try_to::<u64>().is_err())`
unfoldable pub is_bad_logical_time : Option ℕ → Bool
is_bad_logical_time none = true
is_bad_logical_time (some lt) = not (ltb lt (2 ^ 64))

pub record PendingSendRecord (A : Type 0) : Type 0 where
  pub journal_version : ℕ
  pub operation_id : String
  pub record_id : String
  pub source : TonAddressString A
  pub kind : SignedMessageKind
  pub seqno : ℕ
  pub valid_until : ℕ
  pub message_hash : Base64Hash
  pub stage : SendStage
  pub durable : DurableSendRecord A
  pub journal : JournalRecord

-- The part of `PendingSendRecord::snapshot` that the resolution decides.
unfoldable pub resolution_view :
    SendStage → SendResolution → SendPhase × Option Base64Hash × Option ℕ × Option PendingReason
resolution_view stage (confirmed hash lt) = (SendPhase.confirmed, some hash, some lt, none)
resolution_view stage replaced = (SendPhase.replaced, none, none, none)
resolution_view stage sequence_number_consumed =
    (SendPhase.sequence_number_consumed, none, none, none)
resolution_view stage expired = (SendPhase.expired, none, none, none)
resolution_view stage (still_pending reason) = (public_phase stage, none, none, some reason)

-- The stage and evidence that a resolution writes; a pending one writes nothing.
unfoldable pub terminal_evidence :
    SendResolution → Option (SendStage × Option Base64Hash × Option ℕ)
terminal_evidence (confirmed hash lt) = some (SendStage.confirmed, some hash, some lt)
terminal_evidence replaced = some (SendStage.replaced, none, none)
terminal_evidence sequence_number_consumed = some (SendStage.sequence_number_consumed, none, none)
terminal_evidence expired = some (SendStage.expired, none, none)
terminal_evidence (still_pending reason) = none

abbrev pub retry_hint : Option PendingReason → Option ℕ
retry_hint none = none
retry_hint (some _) = some 4000

-- A resolution with no evidence and nothing pending.
abbrev pub settled : ResolutionInfo
settled = record {
  transaction_hash = none;
  transaction_lt = none;
  pending_reason = none;
  can_force_retry = false;
  retry_after_hint_ms = none;
}

-- A resolution that waits for the validity window.
abbrev pub awaiting : Bool → ResolutionInfo
awaiting force = record {
  transaction_hash = none;
  transaction_lt = none;
  pending_reason = some awaiting_window;
  can_force_retry = force;
  retry_after_hint_ms = some 4000;
}

-- The resolution that a durable stage shows to an observer.
unfoldable pub resolution_of_stage :
    SendStage → Option Base64Hash → Option ℕ → Option ResolutionInfo
resolution_of_stage SendStage.confirmed hash lt = some (record {
  transaction_hash = hash;
  transaction_lt = lt;
  pending_reason = none;
  can_force_retry = false;
  retry_after_hint_ms = none;
})
resolution_of_stage SendStage.replaced hash lt = some settled
resolution_of_stage SendStage.sequence_number_consumed hash lt = some settled
resolution_of_stage SendStage.expired hash lt = some settled
resolution_of_stage SendStage.superseded hash lt = some settled
resolution_of_stage SendStage.failed hash lt = none
resolution_of_stage SendStage.cancelled hash lt = none
resolution_of_stage SendStage.ready_to_submit hash lt = some (awaiting true)
resolution_of_stage SendStage.submitting hash lt = some (awaiting true)
resolution_of_stage SendStage.submission_unknown hash lt = some (awaiting true)
resolution_of_stage SendStage.submitted hash lt = some (awaiting true)
resolution_of_stage SendStage.handed_off hash lt = some (awaiting true)
resolution_of_stage _ hash lt = some (awaiting false)

module _ {A : Type 0} ⦃e : Eq A⦄ (codec : RecordCodec A) where
  -- `durable.stage == Confirmed && (hash.is_none() || …)`
  unfoldable pub lacks_evidence : DurableSendRecord A → Bool
  unfolding is_bad_logical_time
  lacks_evidence d =
      is_confirmed d.stage
      && (is_none d.confirmed_transaction_hash || is_bad_logical_time d.confirmed_transaction_lt)

  unfoldable pub decode_durable_record :
      JournalRecord → Result SendWorkflowError (DurableSendRecord A)
  unfolding lacks_evidence
  decode_durable_record r = do
    guard (not (r.version == 0)) (invalid_journal "version must be positive")
    durable ← map_err invalid_journal (codec.from_slice r.payload)
    guard (durable.schema_version == journal_schema_version)
        (invalid_journal "unsupported schema version")
    guard (not (lacks_evidence durable)) (invalid_journal "confirmed record evidence is invalid")
    ok durable

  -- `record_id` and `source` are the wallet's.
  unfoldable pub is_foreign : DurableSendRecord A → String → TonAddressString A → Bool
  is_foreign d record_id source =
      not (str_eq d.record_id record_id) || not (address_eq d.source source)

  -- The record of this wallet, as the three readers below begin.
  unfoldable pub decode_owned :
      JournalRecord → String → TonAddressString A → Result SendWorkflowError (DurableSendRecord A)
  unfolding decode_durable_record is_foreign
  decode_owned r record_id source = do
    durable ← decode_durable_record r
    guard (not (is_foreign durable record_id source))
        (invalid_journal "record belongs to another wallet")
    ok durable

  -- The value that `pending_send_record` builds.
  unfoldable pub pending_of : JournalRecord → DurableSendRecord A → PendingSendRecord A
  pending_of r durable = record {
    journal_version = r.version;
    operation_id = durable.operation_id;
    record_id = durable.record_id;
    source = durable.source;
    kind = durable.kind;
    seqno = durable.seqno;
    valid_until = durable.valid_until;
    message_hash = durable.message_hash;
    stage = durable.stage;
    durable = durable;
    journal = r;
  }

  unfoldable pub pending_send_record :
      JournalRecord
      → String
      → TonAddressString A
      → Result SendWorkflowError (Option (PendingSendRecord A))
  unfolding decode_owned pending_of
  pending_send_record r record_id source = do
    durable ← decode_owned r record_id source
    if permits_replacement durable.stage then ok none else ok (some (pending_of r durable))

  -- The match of `terminal_send_resolution` on the stage.
  unfoldable pub resolution_at_stage :
      SendStage → DurableSendRecord A → Result SendWorkflowError (Option SendResolution)
  resolution_at_stage SendStage.confirmed d = do
    hash ←
        ok_or d.confirmed_transaction_hash
          (invalid_journal "confirmed record has no transaction hash")
    lt ←
        ok_or d.confirmed_transaction_lt
          (invalid_journal "confirmed record has no transaction logical time")
    ok (some (confirmed hash lt))
  resolution_at_stage SendStage.replaced d = ok (some replaced)
  resolution_at_stage SendStage.sequence_number_consumed d = ok (some sequence_number_consumed)
  resolution_at_stage SendStage.expired d = ok (some expired)
  resolution_at_stage _ d = ok none

  unfoldable pub terminal_send_resolution :
      JournalRecord → String → TonAddressString A → Result SendWorkflowError (Option SendResolution)
  unfolding decode_owned resolution_at_stage
  terminal_send_resolution r record_id source = do
    durable ← decode_owned r record_id source
    resolution_at_stage durable.stage durable

  unfoldable pub send_snapshot_from_journal :
      JournalRecord → String → TonAddressString A → Result SendWorkflowError SendSnapshot
  unfolding decode_owned resolution_of_stage
  send_snapshot_from_journal r record_id source = do
    durable ← decode_owned r record_id source
    ok (record {
      operation_id = some durable.operation_id;
      phase = public_phase durable.stage;
      error_message = durable.diagnostic;
      resolution =
          resolution_of_stage durable.stage durable.confirmed_transaction_hash
            durable.confirmed_transaction_lt;
    })

  -- The record with the evidence written in.
  unfoldable pub with_evidence :
      DurableSendRecord A → SendStage × Option Base64Hash × Option ℕ → DurableSendRecord A
  with_evidence d (stage, hash, lt) = record d {
    stage = stage;
    diagnostic = none;
    confirmed_transaction_hash = hash;
    confirmed_transaction_lt = lt;
  }

  -- The compare-and-exchange that writes the resolved record.
  unfoldable pub evidence_mutation :
      PendingSendRecord A
      → SendStage × Option Base64Hash × Option ℕ
      → Result SendWorkflowError (Option JournalCompareExchange)
  unfolding with_evidence next_journal_version
  evidence_mutation p evidence = do
    version ← next_journal_version (some p.journal_version)
    payload ← map_err invalid_journal (codec.to_vec (with_evidence p.durable evidence))
    ok (
        some (record {
          key = record { record_id = p.record_id; slot = send_slot };
          expected_version = some p.journal_version;
          replacement = record { version = version; payload = payload };
        }))

  unfoldable pub terminal_mutation :
      PendingSendRecord A
      → SendResolution
      → Result SendWorkflowError (Option JournalCompareExchange)
  unfolding evidence_mutation terminal_evidence
  terminal_mutation p resolution = elim (terminal_evidence resolution) [
    | none ↦ ok none
    | some evidence ↦ evidence_mutation p evidence
  ]

module _ {A : Type 0} where
  unfoldable pub can_force_retry : PendingSendRecord A → Bool
  can_force_retry p = permits_forced_replacement p.stage

  unfoldable pub current_journal : PendingSendRecord A → JournalRecord
  current_journal p = p.journal

  -- `PendingSendRecord::snapshot`
  unfoldable pub pending_snapshot : PendingSendRecord A → SendResolution → SendSnapshot
  unfolding resolution_view
  pending_snapshot p resolution =
      let (phase, hash, lt, reason) = resolution_view p.stage resolution in
      record {
        operation_id = some p.operation_id;
        phase = phase;
        error_message = p.durable.diagnostic;
        resolution = some (record {
          transaction_hash = hash;
          transaction_lt = lt;
          pending_reason = reason;
          can_force_retry = is_some reason && permits_forced_replacement p.stage;
          retry_after_hint_ms = retry_hint reason;
        });
      }
