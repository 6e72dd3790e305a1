-- ===== src/Send/Workflow/Reducer.antt =====
-- The reducer's methods on `&mut self` (src/wallet/send.rs, `impl SendWorkflow`).
use wallet_engine.Base.{Option, none, some, if◌then◌else◌, is_some}
use wallet_engine.Base.Interface.{Eq}
use wallet_engine.Base.Results.{Result, ok, err, ok_or}
use wallet_engine.Types.Texts.{Text, codes}
use wallet_engine.Domain.Diagnostic.{bounded_diagnostic}
use wallet_engine.Domain.Journal.{JournalRecord, JournalCompareExchangeResult}
use wallet_engine.Send.Stage.{SendStage, SendEvent, stage_eq}
use wallet_engine.Send.Record.{
  FreshSendAccount, permits_send, PreparedTransfer, SignedMessageKind, external, internal,
  SendDirective, SendWorkflowError, invalid_transition, journal_conflict, account_unavailable,
  load_journal, fetch_fresh_account, prepare_transfer, submit, hand_off, finished, RecordCodec,
}
use wallet_engine.Send.Journal.{next_journal_version}
use wallet_engine.Send.Workflow.Steps.{
  SendWorkflow, Step, ◌>>=◌, ◌>>◌, pure, attempt, asks, throw, modify, next_stage, set_stage,
  apply_event,
}
use wallet_engine.Send.Workflow.Checks.{
  journal_key, prepared_ref, read_secret_directive, validate_prepared, persist_directive,
  slot_version,
}

pub conflict_message : Text
conflict_message = codes "Another send operation changed the journal"

-- The event that a successful exchange stands for.
unfoldable pub persisted_event : SendStage → SignedMessageKind → SendEvent
persisted_event SendStage.persisting_prepared external = SendEvent.prepared_journal_persisted
persisted_event SendStage.persisting_prepared internal =
    SendEvent.internal_message_journal_persisted
persisted_event _ _ = SendEvent.terminal_journal_persisted

module _ {A : Type 0} where
  -- `if !account.permits_send() { return Err(AccountUnavailable) }`
  unfoldable pub require_account : FreshSendAccount → Step A (Unit {0})
  require_account account =
      if permits_send account then pure tt else throw (account_unavailable account.status)

  unfoldable pub begin : Step A (SendDirective A)
  unfolding apply_event journal_key
  begin = do apply_event SendEvent.begin "begin"; key ← asks journal_key; pure (load_journal key)

  unfoldable pub fresh_account_loaded : FreshSendAccount → Step A (SendDirective A)
  unfolding next_stage require_account read_secret_directive
  fresh_account_loaded account = do
    stage ← attempt (next_stage SendEvent.fresh_account_loaded "fresh_account_loaded")
    require_account account
    modify (λ w. record w { fresh_account = some account; stage = stage })
    attempt read_secret_directive

  unfoldable pub prepared_account_loaded : FreshSendAccount → Step A (Unit {0})
  unfolding next_stage require_account
  prepared_account_loaded account = do
    stage ← attempt (next_stage SendEvent.prepared_account_loaded "prepared_account_loaded")
    require_account account
    modify (λ w. record w { fresh_account = some account; stage = stage })

  unfoldable pub authorization_succeeded : Step A (SendDirective A)
  unfolding next_stage
  authorization_succeeded = do
    stage ← attempt (next_stage SendEvent.authorization_succeeded "authorization_succeeded")
    account ← attempt λ w.
        ok_or w.fresh_account (invalid_transition w.stage "authorization_without_fresh_account")
    set_stage stage
    request ← asks (λ w. w.request)
    pure (prepare_transfer request account)

  unfoldable pub submission_started : Step A (Unit {0})
  unfolding apply_event
  submission_started = apply_event SendEvent.submission_started "submission_started"

  -- The match of `journal_persisted` on the stage after the exchange.
  unfoldable pub persisted_directive :
      SendStage → SendWorkflow A → Result SendWorkflowError (SendDirective A)
  unfolding prepared_ref
  persisted_directive SendStage.ready_to_submit w = elim (prepared_ref w) [
    | ok p ↦ ok (submit p.signed_boc p.message_hash)
    | err x ↦ err x
  ]
  persisted_directive SendStage.handed_off w = elim (prepared_ref w) [
    | ok p ↦ ok (hand_off p.signed_boc p.valid_until)
    | err x ↦ err x
  ]
  persisted_directive SendStage.submission_unknown w = ok finished
  persisted_directive SendStage.submitted w = ok finished
  persisted_directive SendStage.failed w = ok finished
  persisted_directive SendStage.cancelled w = ok finished
  persisted_directive stage w = err (invalid_transition stage "journal_persisted")

  unfoldable pub applied_exchange : Step A (SendDirective A)
  unfolding next_stage persisted_event persisted_directive next_journal_version
  applied_exchange = do
    event ← asks (λ w. persisted_event w.stage w.kind)
    stage ← attempt (next_stage event "journal_persisted")
    version ← attempt (λ w. next_journal_version w.journal_version)
    modify (λ w. record w { journal_version = some version; stage = stage })
    attempt (persisted_directive stage)

  unfoldable pub refused_exchange : Step A (SendDirective A)
  unfolding apply_event
  refused_exchange = do
    apply_event SendEvent.journal_conflict "journal_conflict"
    modify (λ w. record w { diagnostic = some (bounded_diagnostic conflict_message) })
    throw journal_conflict

  unfoldable pub journal_persisted : JournalCompareExchangeResult → Step A (SendDirective A)
  unfolding applied_exchange refused_exchange
  journal_persisted result = if result.applied then applied_exchange else refused_exchange

module _ {A : Type 0} ⦃e : Eq A⦄ (codec : RecordCodec A) where
  unfoldable pub journal_loaded : Option JournalRecord → Step A (SendDirective A)
  unfolding next_stage slot_version
  journal_loaded slot = do
    stage ← attempt (next_stage SendEvent.journal_loaded "journal_loaded")
    version ← attempt (slot_version codec slot)
    modify (λ w. record w { journal_version = version; stage = stage })
    pure fetch_fresh_account

  unfoldable pub transfer_prepared : PreparedTransfer A → Step A (SendDirective A)
  unfolding next_stage validate_prepared persist_directive
  transfer_prepared p = do
    stage ← attempt (next_stage SendEvent.transfer_prepared "transfer_prepared")
    attempt (validate_prepared p)
    modify (λ w. record w { prepared = some p; stage = stage })
    attempt (persist_directive codec)

  unfoldable pub submission_succeeded : Option Text → Step A (SendDirective A)
  unfolding apply_event persist_directive
  submission_succeeded reference = do
    apply_event SendEvent.submission_succeeded "submission_succeeded"
    modify (λ w. record w { provider_reference = reference; diagnostic = none })
    attempt (persist_directive codec)

  unfoldable pub submission_unknown : Text → Step A (SendDirective A)
  unfolding apply_event persist_directive
  submission_unknown diagnostic = do
    apply_event SendEvent.submission_unknown "submission_unknown"
    modify (λ w. record w { diagnostic = some (bounded_diagnostic diagnostic) })
    attempt (persist_directive codec)

  unfoldable pub submission_rejected : Text → Step A (SendDirective A)
  unfolding apply_event persist_directive
  submission_rejected diagnostic = do
    apply_event SendEvent.submission_rejected "submission_rejected"
    modify (λ w. record w { diagnostic = some (bounded_diagnostic diagnostic) })
    attempt (persist_directive codec)

  -- The end of `cancel`: a signed message that exists needs its terminal record.
  unfoldable pub cancelled_directive : SendWorkflow A → Result SendWorkflowError (SendDirective A)
  unfolding persist_directive
  cancelled_directive w = if is_some w.prepared then persist_directive codec w else ok finished

  unfoldable pub cancel_to : SendStage → Step A (SendDirective A)
  unfolding cancelled_directive
  cancel_to stage = do set_stage stage; attempt cancelled_directive

  unfoldable pub cancel : Step A (SendDirective A)
  unfolding next_stage stage_eq cancel_to
  cancel = do
    stage ← attempt (next_stage SendEvent.cancel "cancel")
    current ← asks (λ w. w.stage)
    if stage_eq stage current then pure finished else cancel_to stage
