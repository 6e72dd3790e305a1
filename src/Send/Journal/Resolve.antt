-- ===== src/Send/Journal/Resolve.antt =====
-- What an observer and a later send read after a pending record was resolved (src/wallet/send.rs,
-- `PendingSendRecord::terminal_mutation`, `terminal_send_resolution` and the snapshots).
use Prim.Native.String.{String}
use wallet_engine.Base.{
  ℕ, ◌+◌, ◌^◌, ◌<◌, true, false, ◌≡◌, refl, Option, none, some, arith, Bool-cases, Option-cases,
  inl, inr,
}
use wallet_engine.Base.Interface.{Eq}
use wallet_engine.Base.Results.{ok, >>=-eq-ok}
use wallet_engine.Domain.Journal.{JournalRecord, JournalCompareExchange}
use wallet_engine.Domain.Send.{TonAddressString, Base64Hash, awaiting_window}
use wallet_engine.Send.Stage.{
  SendStage, permits_replacement, permits_forced_replacement, public_phase,
}
use wallet_engine.Send.Record.{
  DurableSendRecord, SendResolution, confirmed, replaced, sequence_number_consumed, expired,
  still_pending, RecordCodec, IsFaithful,
}
use wallet_engine.Send.Journal.{
  PendingSendRecord, pending_of, pending_send_record, decode_owned, decode_durable_record,
  lacks_evidence, is_foreign, is_bad_logical_time, next_journal_version, terminal_evidence,
  with_evidence, evidence_mutation, terminal_mutation, terminal_send_resolution,
  resolution_at_stage, resolution_of_stage, resolution_view, send_snapshot_from_journal,
  pending_snapshot,
}

-- A confirmation names a logical time of 64 bits, as the provider's transactions do.
unfoldable pub IsRecordable : SendResolution → Type 0
IsRecordable (confirmed hash lt) = lt < 2 ^ 64
IsRecordable _ = Unit

module _ {A : Type 0} ⦃e : Eq A⦄ (codec : RecordCodec A) where
  pub pending_parts :
      (r : JournalRecord) (id : String) (source : TonAddressString A) (p : PendingSendRecord A)
      → pending_send_record codec r id source ≡ ok (some p)
      → (d : DurableSendRecord A) × (decode_owned codec r id source ≡ ok d)
        × (permits_replacement d.stage ≡ false)
        × (pending_of codec r d ≡ p)
  unfolding pending_send_record
  pending_parts r id source p h =
      let (d, owned, rest) = >>=-eq-ok (decode_owned codec r id source) _ h in
      elim (Bool-cases (permits_replacement d.stage)) [
        | inl resolved ↦ let no_record = rw resolved at rest in absurd cc
        | inr blocks ↦ let same = rw blocks at rest in (d, owned, blocks, cc)
      ]

  pending_fields :
      (r : JournalRecord) (d : DurableSendRecord A) (p : PendingSendRecord A)
      → pending_of codec r d ≡ p
      → (p.durable ≡ d)
        × (p.journal_version ≡ r.version)
        × (p.operation_id ≡ d.operation_id)
        × (p.stage ≡ d.stage)
  unfolding pending_of
  pending_fields r d p h = rw (← h) (refl, refl, refl, refl)

  pub owned_parts :
      (r : JournalRecord) (id : String) (source : TonAddressString A) (d : DurableSendRecord A)
      → decode_owned codec r id source ≡ ok d
      → (is_foreign codec d id source ≡ false) × (d.schema_version ≡ 5)
  unfolding decode_owned decode_durable_record
  owned_parts r id source d h = ground arith

  mutation_parts :
      (p : PendingSendRecord A) (ev : SendStage × Option Base64Hash × Option ℕ)
      (x : JournalCompareExchange)
      → evidence_mutation codec p ev ≡ ok (some x)
      → (codec.to_vec (with_evidence codec p.durable ev) ≡ ok x.replacement.payload)
        × (x.replacement.version ≡ p.journal_version + 1)
        × (x.expected_version ≡ some p.journal_version)
  unfolding evidence_mutation next_journal_version
  mutation_parts p ev x h = ground arith

  evidence_reads_back :
      (d : DurableSendRecord A) (res : SendResolution)
      (ev : SendStage × Option Base64Hash × Option ℕ)
      → IsRecordable res
      → terminal_evidence res ≡ some ev
      → (lacks_evidence codec (with_evidence codec d ev) ≡ false)
        × (permits_replacement ev.0 ≡ true)
        × (resolution_at_stage codec ev.0 (with_evidence codec d ev) ≡ ok (some res))
  unfolding IsRecordable terminal_evidence lacks_evidence with_evidence resolution_at_stage
      permits_replacement is_bad_logical_time
  evidence_reads_back d (confirmed hash lt) (stage, h, l) small is = ground arith
  evidence_reads_back d replaced (stage, h, l) small is = ground arith
  evidence_reads_back d sequence_number_consumed (stage, h, l) small is = ground arith
  evidence_reads_back d expired (stage, h, l) small is = ground arith
  evidence_reads_back d (still_pending reason) ev small is = absurd cc

  evidence_keeps :
      (d : DurableSendRecord A) (ev : SendStage × Option Base64Hash × Option ℕ) (id : String)
      (source : TonAddressString A)
      → (is_foreign codec (with_evidence codec d ev) id source ≡ is_foreign codec d id source)
        × ((with_evidence codec d ev).schema_version ≡ d.schema_version)
        × ((with_evidence codec d ev).stage ≡ ev.0)
  unfolding is_foreign with_evidence
  evidence_keeps d ev id source = (refl, refl, refl)

  decode_resolved :
      (p : PendingSendRecord A) (res : SendResolution) (x : JournalCompareExchange) (id : String)
      (source : TonAddressString A) (ev : SendStage × Option Base64Hash × Option ℕ)
      → IsFaithful codec
      → IsRecordable res
      → (is_foreign codec p.durable id source ≡ false) × (p.durable.schema_version ≡ 5)
      → terminal_evidence res ≡ some ev
      → evidence_mutation codec p ev ≡ ok (some x)
      → decode_owned codec x.replacement id source ≡ ok (with_evidence codec p.durable ev)
  unfolding decode_owned decode_durable_record
  decode_resolved p res x id source ev faithful small owned is h =
      let (written, numbered, _) = mutation_parts p ev x h in
      ground (
        arith,
        faithful (with_evidence codec p.durable ev) x.replacement.payload written,
        (evidence_reads_back p.durable res ev small is).0,
        evidence_keeps p.durable ev id source,
      )

  mutation_writes :
      (p : PendingSendRecord A) (res : SendResolution) (x : JournalCompareExchange)
      → terminal_mutation codec p res ≡ ok (some x)
      → (ev : SendStage × Option Base64Hash × Option ℕ) × (terminal_evidence res ≡ some ev)
        × (evidence_mutation codec p ev ≡ ok (some x))
  unfolding terminal_mutation
  mutation_writes p res x h = elim (Option-cases (terminal_evidence res)) [
    | inl nothing ↦ let no_write = rw (terminal_mutation, nothing) at h in absurd cc
    | inr (ev, is) ↦ (ev, is, rw (terminal_mutation, is) at h)
  ]

  -- The record that the mutation writes, as its reader decodes it.
  resolved_record :
      (r : JournalRecord) (id : String) (source : TonAddressString A) (p : PendingSendRecord A)
      (res : SendResolution) (x : JournalCompareExchange)
      → IsFaithful codec
      → IsRecordable res
      → pending_send_record codec r id source ≡ ok (some p)
      → terminal_mutation codec p res ≡ ok (some x)
      → (ev : SendStage × Option Base64Hash × Option ℕ) × (terminal_evidence res ≡ some ev)
        × (decode_owned codec x.replacement id source ≡ ok (with_evidence codec p.durable ev))
        × (x.replacement.version ≡ r.version + 1)
        × (x.expected_version ≡ some r.version)
  resolved_record r id source p res x faithful small h k =
      let (d, owned, blocks, built) = pending_parts r id source p h in
      let (held, version, _, _) = pending_fields r d p built in
      let (ev, is, written) = mutation_writes p res x k in
      let (payload, next, expected) = mutation_parts p ev x written in
      let parts = owned_parts r id source d owned in
      (
        ev,
        is,
        decode_resolved p res x id source ev faithful small (rw held parts) is written,
        rw (← version) next,
        rw (← version) expected,
      )

  -- A resolution that is written for a pending record with exact evidence is read back by every later
  -- reader as it was, one version above the record that it replaces, and no longer blocks a signature.
  -- A confirmed transaction has a logical time below 2^64, and the codec reads back what it writes.
  pub resolution_round_trip :
      (r : JournalRecord) (id : String) (source : TonAddressString A) (p : PendingSendRecord A)
      (res : SendResolution) (x : JournalCompareExchange)
      → IsFaithful codec
      → IsRecordable res
      → pending_send_record codec r id source ≡ ok (some p)
      → terminal_mutation codec p res ≡ ok (some x)
      → (terminal_send_resolution codec x.replacement id source ≡ ok (some res))
        × (pending_send_record codec x.replacement id source ≡ ok none)
        × (x.replacement.version ≡ r.version + 1)
        × (x.expected_version ≡ some r.version)
  unfolding terminal_send_resolution pending_send_record with_evidence
  resolution_round_trip r id source p res x faithful small h k =
      let (ev, is, back, version, expected) =
        resolved_record r id source p res x faithful small h k in
      let (_, resolved, same) = evidence_reads_back p.durable res ev small is in
      let at_stage = (evidence_keeps p.durable ev id source).2 in
      (rw (back, at_stage) same, rw (back, at_stage, resolved) refl, version, expected)

  evidence_shows :
      (p : PendingSendRecord A) (res : SendResolution)
      (ev : SendStage × Option Base64Hash × Option ℕ)
      → terminal_evidence res ≡ some ev
      → let d = with_evidence codec p.durable ev in
        (public_phase ev.0 ≡ (pending_snapshot p res).phase)
        × (resolution_of_stage ev.0 d.confirmed_transaction_hash d.confirmed_transaction_lt
            ≡ (pending_snapshot p res).resolution)
        × (d.diagnostic ≡ none)
        × (d.operation_id ≡ p.durable.operation_id)
        × (d.stage ≡ ev.0)
  unfolding terminal_evidence with_evidence public_phase resolution_of_stage pending_snapshot
      resolution_view
  evidence_shows p (confirmed hash lt) (stage, h, l) is = ground arith
  evidence_shows p replaced (stage, h, l) is = ground arith
  evidence_shows p sequence_number_consumed (stage, h, l) is = ground arith
  evidence_shows p expired (stage, h, l) is = ground arith
  evidence_shows p (still_pending reason) ev is = absurd cc

  pending_shows :
      (p : PendingSendRecord A) (hash : Option Base64Hash) (lt : Option ℕ)
      → permits_replacement p.stage ≡ false
      → resolution_of_stage p.stage hash lt
        ≡ (pending_snapshot p (still_pending awaiting_window)).resolution
  unfolding permits_replacement permits_forced_replacement resolution_of_stage pending_snapshot
      resolution_view
  pending_shows p hash lt h = ground arith

  -- After the resolution of a pending record is written, an observer that restarts from the journal is
  -- shown what the resolver published, except that the old submission error is cleared. A confirmed
  -- transaction has a logical time below 2^64, and the codec reads back what it writes.
  pub restart_shows_resolution :
      (r : JournalRecord) (id : String) (source : TonAddressString A) (p : PendingSendRecord A)
      (res : SendResolution) (x : JournalCompareExchange)
      → IsFaithful codec
      → IsRecordable res
      → pending_send_record codec r id source ≡ ok (some p)
      → terminal_mutation codec p res ≡ ok (some x)
      → send_snapshot_from_journal codec x.replacement id source
        ≡ ok (record (pending_snapshot p res) { error_message = none })
  unfolding send_snapshot_from_journal pending_snapshot
  restart_shows_resolution r id source p res x faithful small h k =
      let (d, owned, blocks, built) = pending_parts r id source p h in
      let (held, _, named, _) = pending_fields r d p built in
      let (ev, is, back, _, _) = resolved_record r id source p res x faithful small h k in
      let (phase, resolution, cleared, op, at) = evidence_shows p res ev is in rw back cc

  -- While a record is pending, an observer that restarts from the journal is shown the snapshot of a
  -- resolver that still waits for the validity window.
  pub restart_shows_pending :
      (r : JournalRecord) (id : String) (source : TonAddressString A) (p : PendingSendRecord A)
      → pending_send_record codec r id source ≡ ok (some p)
      → send_snapshot_from_journal codec r id source
        ≡ ok (pending_snapshot p (still_pending awaiting_window))
  unfolding send_snapshot_from_journal pending_snapshot resolution_view
  restart_shows_pending r id source p h =
      let (d, owned, blocks, built) = pending_parts r id source p h in
      let (held, _, named, at) = pending_fields r d p built in
      let shown =
        pending_shows p d.confirmed_transaction_hash d.confirmed_transaction_lt (rw at blocks) in
      rw owned cc
