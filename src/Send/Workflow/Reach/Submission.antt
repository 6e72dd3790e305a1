-- ===== src/Send/Workflow/Reach/Submission.antt =====
-- What leaves the reducer for the provider or a relayer (src/wallet/send.rs, `journal_persisted`).
use wallet_engine.Base.{true, false, ◌≡◌, some, arith, is_some, Option-cases, inl, inr}
use wallet_engine.Base.Interface.{Eq}
use wallet_engine.Base.Results.{ok}
use wallet_engine.Domain.Journal.{JournalCompareExchangeResult}
use wallet_engine.Domain.Send.{Boc, Base64Hash}
use wallet_engine.Send.Stage.{SendStage, transition}
use wallet_engine.Send.Record.{
  FreshSendAccount, permits_send, PreparedTransfer, external, submit, RecordCodec,
}
use wallet_engine.Send.Workflow.Steps.{SendWorkflow}
use wallet_engine.Send.Workflow.Checks.{mismatches}
use wallet_engine.Send.Workflow.Reducer.{journal_persisted}
use wallet_engine.Send.Workflow.Invariant.{Inv}
use wallet_engine.Send.Workflow.Reach.{Reached, Reached-Inv}

module _ {A : Type 0} ⦃e : Eq A⦄ where
  -- The signed message of a workflow whose durable write was just reported.
  pub record IsCleared (w : SendWorkflow A) (r : JournalCompareExchangeResult) (boc : Boc)
      (hash : Base64Hash) : Type 0 where
    pub transfer : PreparedTransfer A
    pub account : FreshSendAccount
    pub written : r.applied ≡ true
    pub waiting : w.stage ≡ SendStage.persisting_prepared
    pub delivery : w.kind ≡ external
    pub held : w.prepared ≡ some transfer
    pub same_message : transfer.signed_boc ≡ boc
    pub same_hash : transfer.message_hash ≡ hash
    pub fetched : w.fresh_account ≡ some account
    pub allowed : permits_send account ≡ true
    pub checked : mismatches w.record_id w.source w.request w.kind account transfer ≡ false

  submit_needs :
      (w : SendWorkflow A) (r : JournalCompareExchangeResult) (boc : Boc) (hash : Base64Hash)
      → (journal_persisted r w).1 ≡ ok (submit boc hash)
      → (r.applied ≡ true)
        × (w.stage ≡ SendStage.persisting_prepared)
        × (w.kind ≡ external)
        × (is_some w.prepared ≡ true)
  unfolding journal_persisted transition
  submit_needs w r boc hash h = ground arith

  submit_holds :
      (w : SendWorkflow A) (r : JournalCompareExchangeResult) (boc : Boc) (hash : Base64Hash)
      (p : PreparedTransfer A)
      → w.prepared ≡ some p
      → (journal_persisted r w).1 ≡ ok (submit boc hash)
      → (p.signed_boc ≡ boc) × (p.message_hash ≡ hash)
  unfolding journal_persisted transition
  submit_holds w r boc hash p k h = ground arith

  account_of :
      (w : SendWorkflow A) (p : PreparedTransfer A)
      → Inv w
      → w.prepared ≡ some p
      → (a : FreshSendAccount) × (w.fresh_account ≡ some a)
        × (permits_send a ≡ true)
        × (mismatches w.record_id w.source w.request w.kind a p ≡ false)
  account_of w p v k = elim (Option-cases w.fresh_account) [
    | inl none_left ↦ absurd (ground arith)
    | inr (a, is) ↦ (a, is, ground arith, ground arith)
  ]

module _ {A : Type 0} ⦃e : Eq A⦄ (codec : RecordCodec A) where
  -- Whatever calls were made before: where the reducer asks for a submission, the durable write of the
  -- signed message was just reported as applied, and the message to submit is the one that was held
  -- for that write and checked against the request and a fresh account that permits sending.
  pub submit-IsCleared :
      (w : SendWorkflow A) (r : JournalCompareExchangeResult) (boc : Boc) (hash : Base64Hash)
      → Reached codec w
      → (journal_persisted r w).1 ≡ ok (submit boc hash)
      → IsCleared w r boc hash
  submit-IsCleared w r boc hash reached h =
      let (written, waiting, kind, held) = submit_needs w r boc hash h in
      elim (Option-cases w.prepared) [
        | inl nothing ↦ absurd (ground arith)
        | inr (p, is) ↦
            let (a, fetched, allowed, checked) = account_of w p (Reached-Inv codec reached) is in
            let (same_boc, same_hash) = submit_holds w r boc hash p is h in
            record {
              transfer = p;
              account = a;
              written = written;
              waiting = waiting;
              delivery = kind;
              held = is;
              same_message = same_boc;
              same_hash = same_hash;
              fetched = fetched;
              allowed = allowed;
              checked = checked;
            }
      ]
