-- ===== src/Send/Workflow/Reach.antt =====
-- The workflows that any calls of the reducer's methods lead to, in order or out of order, with any
-- arguments (src/wallet/send.rs, `impl SendWorkflow`).
pub mod Submission
pub mod Restart
use Prim.Native.String.{String}
use wallet_engine.Base.{Option, some, none, ◌≡◌, refl, arith}
use wallet_engine.Base.Interface.{Eq}
use wallet_engine.Types.Texts.{Text}
use wallet_engine.Domain.Journal.{JournalRecord, JournalCompareExchangeResult}
use wallet_engine.Domain.Send.{TonAddressString, SendRequest}
use wallet_engine.Send.Record.{
  FreshSendAccount, PreparedTransfer, SignedMessageKind, ProtectedSecretRef, RecordCodec,
}
use wallet_engine.Send.Workflow.Steps.{SendWorkflow, new_with_kind}
use wallet_engine.Send.Workflow.Reducer.{
  begin, journal_loaded, fresh_account_loaded, prepared_account_loaded, authorization_succeeded,
  transfer_prepared, journal_persisted, submission_started, submission_succeeded,
  submission_unknown, submission_rejected, cancel,
}
use wallet_engine.Send.Workflow.Invariant.{
  Inv, begin-Inv, fresh_account_loaded-Inv, prepared_account_loaded-Inv,
  authorization_succeeded-Inv, submission_started-Inv, journal_persisted-Inv, journal_loaded-Inv,
  transfer_prepared-Inv, submission_succeeded-Inv, submission_unknown-Inv, submission_rejected-Inv,
  cancel-Inv,
}

module _ {A : Type 0} ⦃e : Eq A⦄ (codec : RecordCodec A) where
  pub data Call (w : SendWorkflow A) : SendWorkflow A → Type 0 where
    begins : {t : SendWorkflow A} → t ≡ (begin w).0 → Call w t
    loads_journal :
        {t : SendWorkflow A} (r : Option JournalRecord)
        → t ≡ (journal_loaded codec r w).0
        → Call w t
    loads_account :
        {t : SendWorkflow A} (a : FreshSendAccount) → t ≡ (fresh_account_loaded a w).0 → Call w t
    loads_prepared_account :
        {t : SendWorkflow A} (a : FreshSendAccount) → t ≡ (prepared_account_loaded a w).0 → Call w t
    authorizes : {t : SendWorkflow A} → t ≡ (authorization_succeeded w).0 → Call w t
    prepares :
        {t : SendWorkflow A} (p : PreparedTransfer A)
        → t ≡ (transfer_prepared codec p w).0
        → Call w t
    persists :
        {t : SendWorkflow A} (r : JournalCompareExchangeResult)
        → t ≡ (journal_persisted r w).0
        → Call w t
    starts : {t : SendWorkflow A} → t ≡ (submission_started w).0 → Call w t
    succeeds :
        {t : SendWorkflow A} (x : Option Text) → t ≡ (submission_succeeded codec x w).0 → Call w t
    turns_unknown :
        {t : SendWorkflow A} (x : Text) → t ≡ (submission_unknown codec x w).0 → Call w t
    is_rejected : {t : SendWorkflow A} (x : Text) → t ≡ (submission_rejected codec x w).0 → Call w t
    cancels : {t : SendWorkflow A} → t ≡ (cancel codec w).0 → Call w t

  -- A workflow that began with `new`, `new_internal` or `new_prepared_external`.
  pub data Reached : SendWorkflow A → Type 0 where
    created :
        {t : SendWorkflow A} (record_id : String) (source : TonAddressString A)
        (request : SendRequest A) (secret : Option ProtectedSecretRef) (kind : SignedMessageKind)
        → t ≡ new_with_kind record_id source request secret kind
        → Reached t
    called : {t u : SendWorkflow A} → Reached t → Call t u → Reached u

  Call-Inv : {t u : SendWorkflow A} → Inv t → Call t u → Inv u
  Call-Inv {t} v (begins e) = rw e (begin-Inv t v)
  Call-Inv {t} v (loads_journal r e) = rw e (journal_loaded-Inv codec t r v)
  Call-Inv {t} v (loads_account a e) = rw e (fresh_account_loaded-Inv t a v)
  Call-Inv {t} v (loads_prepared_account a e) = rw e (prepared_account_loaded-Inv t a v)
  Call-Inv {t} v (authorizes e) = rw e (authorization_succeeded-Inv t v)
  Call-Inv {t} v (prepares p e) = rw e (transfer_prepared-Inv codec t p v)
  Call-Inv {t} v (persists r e) = rw e (journal_persisted-Inv t r v)
  Call-Inv {t} v (starts e) = rw e (submission_started-Inv t v)
  Call-Inv {t} v (succeeds x e) = rw e (submission_succeeded-Inv codec t x v)
  Call-Inv {t} v (turns_unknown x e) = rw e (submission_unknown-Inv codec t x v)
  Call-Inv {t} v (is_rejected x e) = rw e (submission_rejected-Inv codec t x v)
  Call-Inv {t} v (cancels e) = rw e (cancel-Inv codec t v)

  created-Inv :
      (record_id : String) (source : TonAddressString A) (request : SendRequest A)
      (secret : Option ProtectedSecretRef) (kind : SignedMessageKind)
      → Inv (new_with_kind record_id source request secret kind)
  unfolding new_with_kind
  created-Inv record_id source request secret kind = ground arith

  -- Every workflow that calls of the reducer's methods lead to, whatever their order and arguments and
  -- whether they fail or not, keeps the invariant: no signed message before `persisting_prepared`; a
  -- signed message where the stage needs it, and then one that was checked against the request and an
  -- account that permits sending; and a journal version in every stage behind the durable write.
  pub Reached-Inv : {t : SendWorkflow A} → Reached t → Inv t
  Reached-Inv (created i s r k m e) = rw e (created-Inv i s r k m)
  Reached-Inv (called r c) = Call-Inv (Reached-Inv r) c
