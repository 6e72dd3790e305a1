-- ===== src/Tests/Send/Resolve.antt =====
-- The resolution of a pending record, at one record (src/wallet/send.rs).
use wallet_engine.Base.{ℕ, ◌≡◌, refl, some, none, [], ◌∷◌, arith}
use wallet_engine.Base.Results.{ok}
use wallet_engine.Domain.Journal.{JournalRecord, JournalCompareExchange}
use wallet_engine.Domain.Send.{address_eq, awaiting_window}
use wallet_engine.Send.Stage.{permits_replacement}
use wallet_engine.Send.Record.{confirmed, still_pending}
use wallet_engine.Send.Journal.{
  send_slot, PendingSendRecord, pending_of, pending_send_record, decode_owned,
  decode_durable_record, lacks_evidence, is_foreign, next_journal_version, terminal_evidence,
  with_evidence, evidence_mutation, terminal_mutation, terminal_send_resolution,
  send_snapshot_from_journal, pending_snapshot,
}
use wallet_engine.Send.Journal.Resolve.{
  IsRecordable, resolution_round_trip, restart_shows_resolution, restart_shows_pending,
}
use wallet_engine.Tests.Send.Values.{
  address_number, wallet_address, hash, signed_record, codec, codec-IsFaithful, read,
  write_confirmed,
}

abbrev pub stored : JournalRecord
stored = record { version = 1; payload = 1 ∷ [] }

pub pending : PendingSendRecord ℕ
pending = pending_of codec stored signed_record

pub resolved_write : JournalCompareExchange
resolved_write = record {
  key = record { record_id = "record"; slot = send_slot };
  expected_version = some 1;
  replacement = record { version = 2; payload = 2 ∷ [] };
}

pub stored-pending : pending_send_record codec stored "record" wallet_address ≡ ok (some pending)
unfolding pending_send_record decode_owned decode_durable_record lacks_evidence is_foreign
    address_eq permits_replacement pending read
stored-pending = refl

pub writes_confirmed :
    terminal_mutation codec pending (confirmed hash 42) ≡ ok (some resolved_write)
unfolding terminal_mutation evidence_mutation terminal_evidence next_journal_version pending
    pending_of resolved_write with_evidence
writes_confirmed = rw write_confirmed refl

pub small : IsRecordable (confirmed hash 42)
unfolding IsRecordable
small = omega arith

resolution_round_trip_example :
    (terminal_send_resolution codec resolved_write.replacement "record" wallet_address
      ≡ ok (some (confirmed hash 42)))
    × (pending_send_record codec resolved_write.replacement "record" wallet_address ≡ ok none)
    × (resolved_write.replacement.version ≡ 2)
    × (resolved_write.expected_version ≡ some 1)
resolution_round_trip_example =
    resolution_round_trip codec stored "record" wallet_address pending (confirmed hash 42)
      resolved_write codec-IsFaithful small stored-pending writes_confirmed

restart_shows_resolution_example :
    send_snapshot_from_journal codec resolved_write.replacement "record" wallet_address
    ≡ ok (record (pending_snapshot pending (confirmed hash 42)) { error_message = none })
restart_shows_resolution_example =
    restart_shows_resolution codec stored "record" wallet_address pending (confirmed hash 42)
      resolved_write codec-IsFaithful small stored-pending writes_confirmed

restart_shows_pending_example :
    send_snapshot_from_journal codec stored "record" wallet_address
    ≡ ok (pending_snapshot pending (still_pending awaiting_window))
restart_shows_pending_example =
    restart_shows_pending codec stored "record" wallet_address pending stored-pending
