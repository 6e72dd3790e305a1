-- ===== src/Send/Workflow/Invariant.antt =====
-- What every method of the reducer keeps (src/wallet/send.rs, `impl SendWorkflow`).
use Prim.Native.String.{String}
use wallet_engine.Base.{Bool, true, false, ◌≡◌, Option, none, some, arith, is_some}
use wallet_engine.Base.Interface.{Eq}
use wallet_engine.Types.Texts.{Text}
use wallet_engine.Domain.Journal.{JournalRecord, JournalCompareExchangeResult}
use wallet_engine.Domain.Send.{TonAddressString, SendRequest}
use wallet_engine.Send.Stage.{SendStage, transition}
use wallet_engine.Send.Record.{
  FreshSendAccount, permits_send, PreparedTransfer, SignedMessageKind, RecordCodec,
}
use wallet_engine.Send.Journal.{is_confirmed}
use wallet_engine.Send.Workflow.Steps.{SendWorkflow}
use wallet_engine.Send.Workflow.Checks.{mismatches}
use wallet_engine.Send.Workflow.Reducer.{
  begin, journal_loaded, fresh_account_loaded, prepared_account_loaded, authorization_succeeded,
  transfer_prepared, journal_persisted, submission_started, submission_succeeded,
  submission_unknown, submission_rejected, cancel,
}

-- The stages before a signed message exists.
abbrev pub is_early : SendStage → Bool
is_early SendStage.validating = true
is_early SendStage.loading_journal = true
is_early SendStage.fetching_fresh_account = true
is_early SendStage.authorizing = true
is_early SendStage.preparing = true
is_early _ = false

-- The stages that need the fresh account.
abbrev pub needs_account : SendStage → Bool
needs_account SendStage.authorizing = true
needs_account SendStage.preparing = true
needs_account _ = false

-- The stages that need the signed message.
abbrev pub needs_prepared : SendStage → Bool
needs_prepared SendStage.persisting_prepared = true
needs_prepared SendStage.ready_to_submit = true
needs_prepared SendStage.submitting = true
needs_prepared SendStage.submission_unknown = true
needs_prepared SendStage.submitted = true
needs_prepared SendStage.handed_off = true
needs_prepared _ = false

-- The stages that only a durable write of the signed message leads to.
abbrev pub is_durable : SendStage → Bool
is_durable SendStage.ready_to_submit = true
is_durable SendStage.submitting = true
is_durable SendStage.submission_unknown = true
is_durable SendStage.submitted = true
is_durable SendStage.handed_off = true
is_durable _ = false

abbrev pub IsAllowed : Option FreshSendAccount → Type 0
IsAllowed none = Unit {0}
IsAllowed (some a) = permits_send a ≡ true

module _ {A : Type 0} ⦃e : Eq A⦄ where
  -- A signed message was checked against the request and the fresh account.
  abbrev pub IsChecked :
      String
      → TonAddressString A
      → SendRequest A
      → SignedMessageKind
      → Option FreshSendAccount
      → Option (PreparedTransfer A)
      → Type 0
  IsChecked record_id source request kind account none = Unit {0}
  IsChecked record_id source request kind none (some p) = ⊥
  IsChecked record_id source request kind (some a) (some p) =
      mismatches record_id source request kind a p ≡ false

  pub record Inv (w : SendWorkflow A) : Type 0 where
    pub unsigned : is_early w.stage ≡ true → w.prepared ≡ none
    pub account : needs_account w.stage ≡ true → is_some w.fresh_account ≡ true
    pub signed : needs_prepared w.stage ≡ true → is_some w.prepared ≡ true
    pub persisted : is_durable w.stage ≡ true → is_some w.journal_version ≡ true
    pub unresolved : is_confirmed w.stage ≡ false
    pub allowed : IsAllowed w.fresh_account
    pub checked : IsChecked w.record_id w.source w.request w.kind w.fresh_account w.prepared

  pub begin-Inv : (w : SendWorkflow A) → Inv w → Inv (begin w).0
  unfolding begin transition
  begin-Inv w v = ground arith

  pub fresh_account_loaded-Inv :
      (w : SendWorkflow A) (a : FreshSendAccount) → Inv w → Inv (fresh_account_loaded a w).0
  unfolding fresh_account_loaded transition
  fresh_account_loaded-Inv w a v = ground arith

  pub prepared_account_loaded-Inv :
      (w : SendWorkflow A) (a : FreshSendAccount) → Inv w → Inv (prepared_account_loaded a w).0
  unfolding prepared_account_loaded transition
  prepared_account_loaded-Inv w a v = ground arith

  pub authorization_succeeded-Inv : (w : SendWorkflow A) → Inv w → Inv (authorization_succeeded w).0
  unfolding authorization_succeeded transition
  authorization_succeeded-Inv w v = ground arith

  pub submission_started-Inv : (w : SendWorkflow A) → Inv w → Inv (submission_started w).0
  unfolding submission_started transition
  submission_started-Inv w v = ground arith

  pub journal_persisted-Inv :
      (w : SendWorkflow A) (r : JournalCompareExchangeResult)
      → Inv w
      → Inv (journal_persisted r w).0
  unfolding journal_persisted transition
  journal_persisted-Inv w r v = ground arith

module _ {A : Type 0} ⦃e : Eq A⦄ (codec : RecordCodec A) where
  pub journal_loaded-Inv :
      (w : SendWorkflow A) (r : Option JournalRecord) → Inv w → Inv (journal_loaded codec r w).0
  unfolding journal_loaded transition
  journal_loaded-Inv w r v = ground arith

  pub transfer_prepared-Inv :
      (w : SendWorkflow A) (p : PreparedTransfer A) → Inv w → Inv (transfer_prepared codec p w).0
  unfolding transfer_prepared transition
  transfer_prepared-Inv w p v = ground arith

  pub submission_succeeded-Inv :
      (w : SendWorkflow A) (t : Option Text) → Inv w → Inv (submission_succeeded codec t w).0
  unfolding submission_succeeded transition
  submission_succeeded-Inv w t v = ground arith

  pub submission_unknown-Inv :
      (w : SendWorkflow A) (t : Text) → Inv w → Inv (submission_unknown codec t w).0
  unfolding submission_unknown transition
  submission_unknown-Inv w t v = ground arith

  pub submission_rejected-Inv :
      (w : SendWorkflow A) (t : Text) → Inv w → Inv (submission_rejected codec t w).0
  unfolding submission_rejected transition
  submission_rejected-Inv w t v = ground arith

  pub cancel-Inv : (w : SendWorkflow A) → Inv w → Inv (cancel codec w).0
  unfolding cancel transition
  cancel-Inv w v = ground arith
