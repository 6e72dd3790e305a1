-- ===== src/Send/Workflow/Reach/Restart.antt =====
-- What a later send makes of the record that this one wrote (src/wallet/send.rs, `persist_directive`
-- and `journal_loaded`).
use text.Mathlib.Text.{◌==◌ as str_eq}
use wallet_engine.Base.{
  ℕ, true, false, ◌&&◌, ◌||◌, ◌≡◌, ◌≤◌, refl, Option, some, arith, is_some, Option-cases, inl, inr,
  if◌then◌else◌,
}
use wallet_engine.Base.Interface.{Eq}
use wallet_engine.Base.Results.{ok, err}
use wallet_engine.Domain.Journal.{JournalRecord, JournalCompareExchange}
use wallet_engine.Domain.Send.{address_eq}
use wallet_engine.Send.Stage.{
  SendStage, transition, permits_replacement, permits_forced_replacement,
}
use wallet_engine.Send.Record.{
  FreshSendAccount, PreparedTransfer, DurableSendRecord, persist_journal, fetch_fresh_account,
  previous_submission_unresolved, RecordCodec, IsFaithful,
}
use wallet_engine.Send.Journal.{
  next_journal_version, decode_owned, is_foreign, is_confirmed, lacks_evidence,
}
use wallet_engine.Send.Workflow.Steps.{SendWorkflow}
use wallet_engine.Send.Workflow.Checks.{
  mismatches, journal_record, durable_stage, persist_directive, may_replace, slot_version,
}
use wallet_engine.Send.Workflow.Reducer.{journal_loaded, transfer_prepared}
use wallet_engine.Send.Workflow.Invariant.{Inv}
use wallet_engine.Send.Workflow.Reach.{Reached, Reached-Inv, called, prepares}

module _ {A : Type 0} ⦃e : Eq A⦄ (codec : RecordCodec A) where
  persist_writes :
      (w : SendWorkflow A) (p : PreparedTransfer A) (x : JournalCompareExchange)
      → w.prepared ≡ some p
      → persist_directive codec w ≡ ok (persist_journal x)
      → (codec.to_vec (journal_record w p) ≡ ok x.replacement.payload)
        × (next_journal_version w.journal_version ≡ ok x.replacement.version)
        × (x.expected_version ≡ w.journal_version)
  unfolding persist_directive
  persist_writes w p x k h = ground arith

  persist_holds :
      (w : SendWorkflow A) (x : JournalCompareExchange)
      → persist_directive codec w ≡ ok (persist_journal x)
      → is_some w.prepared ≡ true
  unfolding persist_directive
  persist_holds w x h = ground arith

  next_version_positive : (v : Option ℕ) (n : ℕ) → next_journal_version v ≡ ok n → 1 ≤ n
  unfolding next_journal_version
  next_version_positive v n h = ground arith

  durable_stage_unresolved :
      (w : SendWorkflow A) → Inv w → is_confirmed (durable_stage w.stage w.kind) ≡ false
  unfolding durable_stage
  durable_stage_unresolved w v = ground arith

  record_complete :
      (w : SendWorkflow A) (p : PreparedTransfer A)
      → Inv w
      → lacks_evidence codec (journal_record w p) ≡ false
  unfolding lacks_evidence journal_record
  record_complete w p v = ground (arith, durable_stage_unresolved w v)

  mismatch_parts :
      (w : SendWorkflow A) (a : FreshSendAccount) (p : PreparedTransfer A)
      → mismatches w.record_id w.source w.request w.kind a p ≡ false
      → (str_eq p.record_id w.record_id ≡ true) × (address_eq p.source w.source ≡ true)
  unfolding mismatches
  mismatch_parts w a p h = ground arith

  record_owned :
      (w : SendWorkflow A) (p : PreparedTransfer A)
      → Inv w
      → w.prepared ≡ some p
      → is_foreign codec (journal_record w p) w.record_id w.source ≡ false
  unfolding is_foreign journal_record
  record_owned w p v k = elim (Option-cases w.fresh_account) [
    | inl none_left ↦ absurd (ground arith)
    | inr (a, is) ↦ ground (arith, mismatch_parts w a p (ground arith))
  ]

  record_schema :
      (w : SendWorkflow A) (p : PreparedTransfer A) → (journal_record w p).schema_version ≡ 5
  unfolding journal_record
  record_schema w p = refl

  record_stage :
      (w : SendWorkflow A) (p : PreparedTransfer A)
      → (journal_record w p).stage ≡ durable_stage w.stage w.kind
  unfolding journal_record
  record_stage w p = refl

  decode_written :
      (w : SendWorkflow A) (p : PreparedTransfer A) (x : JournalCompareExchange)
      → IsFaithful codec
      → Inv w
      → w.prepared ≡ some p
      → persist_directive codec w ≡ ok (persist_journal x)
      → decode_owned codec x.replacement w.record_id w.source ≡ ok (journal_record w p)
  unfolding decode_owned
  decode_written w p x faithful v k h =
      let (written, numbered, _) = persist_writes w p x k h in
      ground (
        arith,
        faithful (journal_record w p) x.replacement.payload written,
        record_complete w p v,
        record_owned w p v k,
        record_schema w p,
        next_version_positive w.journal_version x.replacement.version numbered,
      )

  journal_loaded_lem :
      (w : SendWorkflow A) (r : JournalRecord) (d : DurableSendRecord A)
      → w.stage ≡ SendStage.loading_journal
      → decode_owned codec r w.record_id w.source ≡ ok d
      → (journal_loaded codec (some r) w).1 ≡ (
          if permits_replacement d.stage || w.request.force && permits_forced_replacement d.stage
          then ok fetch_fresh_account
          else err previous_submission_unresolved)
  unfolding journal_loaded slot_version transition may_replace
  journal_loaded_lem w r d h k = ground arith

  -- Every record that the reducer writes is read back by a later send of the same wallet. That send goes
  -- on exactly when the stored stage is resolved, or the caller forces the replacement of a complete
  -- signed message; otherwise it stops before an account is fetched or a secret is read.
  pub restart_after_write :
      (w later : SendWorkflow A) (x : JournalCompareExchange)
      → IsFaithful codec
      → Reached codec w
      → persist_directive codec w ≡ ok (persist_journal x)
      → later.record_id ≡ w.record_id
      → later.source ≡ w.source
      → later.stage ≡ SendStage.loading_journal
      → let stored = durable_stage w.stage w.kind in
        (journal_loaded codec (some x.replacement) later).1 ≡ (
          if permits_replacement stored || later.request.force && permits_forced_replacement stored
          then ok fetch_fresh_account
          else err previous_submission_unresolved)
  restart_after_write w later x faithful reached h same_id same_source at =
      elim (Option-cases w.prepared) [
        | inl nothing ↦ absurd (ground (arith, persist_holds w x h))
        | inr (p, is) ↦
            let back = decode_written w p x faithful (Reached-Inv codec reached) is h in
            rw (← record_stage w p) (
              journal_loaded_lem later x.replacement (journal_record w p) at
                (rw (same_id, same_source) back))
      ]

  persist_stage :
      (w : SendWorkflow A) (p : PreparedTransfer A) (x : JournalCompareExchange)
      → (transfer_prepared codec p w).1 ≡ ok (persist_journal x)
      → (persist_directive codec (transfer_prepared codec p w).0 ≡ ok (persist_journal x))
        × ((transfer_prepared codec p w).0.stage ≡ SendStage.persisting_prepared)
  unfolding transfer_prepared transition
  persist_stage w p x h = ground arith

  signed_stage :
      (w : SendWorkflow A)
      → w.stage ≡ SendStage.persisting_prepared
      → (permits_replacement (durable_stage w.stage w.kind) ≡ false)
        × (permits_forced_replacement (durable_stage w.stage w.kind) ≡ true)
  unfolding durable_stage permits_replacement permits_forced_replacement
  signed_stage w h = ground arith

  -- Once a signed message is handed to the journal, a later send of the same wallet that reads it back
  -- signs again only if its caller forces it.
  pub no_second_signature :
      (w later : SendWorkflow A) (p : PreparedTransfer A) (x : JournalCompareExchange)
      → IsFaithful codec
      → Reached codec w
      → (transfer_prepared codec p w).1 ≡ ok (persist_journal x)
      → later.record_id ≡ (transfer_prepared codec p w).0.record_id
      → later.source ≡ (transfer_prepared codec p w).0.source
      → later.stage ≡ SendStage.loading_journal
      → (journal_loaded codec (some x.replacement) later).1 ≡ (
          if later.request.force
          then ok fetch_fresh_account
          else err previous_submission_unresolved)
  no_second_signature w later p x faithful reached h same_id same_source at =
      let (writes, stage) = persist_stage w p x h in
      let now = (transfer_prepared codec p w).0 in
      let (blocks, forced) = signed_stage now stage in
      ground (
        arith,
        restart_after_write now later x faithful (called reached (prepares p refl)) writes same_id
            same_source at,
        blocks,
        forced,
      )
