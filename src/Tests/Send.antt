-- ===== src/Tests/Send.antt =====
-- Runs of the send workflow, and its theorems at concrete inputs (src/wallet/send.rs).
pub mod Values
pub mod Resolve
use wallet_engine.Base.{
  ℕ, ◌≤◌, ◌≡◌, ◌↔◌, ◌⊎◌, inl, inr, refl, Bool, true, false, ◌&&◌, ◌||◌, Option, none, some, List,
  [], ◌∷◌, arith, if◌then◌else◌,
}
use wallet_engine.Base.Results.{ok, err}
use wallet_engine.Domain.Journal.{JournalCompareExchange, JournalCompareExchangeResult}
use wallet_engine.Domain.Send.{
  SendIntent, SendMessage, SendAmount, exact_value_total, address_eq, messages_eq, message_eq,
  amount_eq, body_eq, option_eq,
}
use wallet_engine.Send.Stage.{
  SendStage, SendEvent, transition, is_terminal, permits_replacement, permits_forced_replacement,
}
use wallet_engine.Send.Stage.Trace.{run, is_sent, WasPersisted, no_submission_before_persistence}
use wallet_engine.Send.Record.{
  FreshSendAccount, PreparedTransfer, external, submit, persist_journal, fetch_fresh_account,
  previous_submission_unresolved, permits_send, needs_state_init,
}
use wallet_engine.Send.Journal.{send_slot}
use wallet_engine.Send.Workflow.Steps.{SendWorkflow, new_with_kind}
use wallet_engine.Send.Workflow.Checks.{
  persist_directive, durable_stage, validate_prepared, mismatches,
}
use wallet_engine.Send.Workflow.Reducer.{
  begin, journal_loaded, fresh_account_loaded, prepared_account_loaded, transfer_prepared,
  journal_persisted,
}
use wallet_engine.Send.Workflow.Invariant.{Inv}
use wallet_engine.Send.Workflow.Reach.{
  Reached, created, called, begins, loads_journal, loads_prepared_account, prepares, Reached-Inv,
}
use wallet_engine.Send.Workflow.Reach.Submission.{IsCleared, submit-IsCleared}
use wallet_engine.Send.Workflow.Reach.Restart.{restart_after_write, no_second_signature}
use Values.{
  address_number, wallet_address, message, request_of, account, signed, hash, transfer,
  signed_record, codec, codec-IsFaithful, write_signed, write,
}

-- A normal send, with one event that comes too early.
abbrev events : List SendEvent
events =
    SendEvent.begin ∷ SendEvent.submission_started ∷ SendEvent.journal_loaded
    ∷ SendEvent.fresh_account_loaded ∷ SendEvent.authorization_succeeded
    ∷ SendEvent.transfer_prepared ∷ SendEvent.prepared_journal_persisted
    ∷ SendEvent.submission_started ∷ []

events_submit : run SendStage.validating events ≡ SendStage.submitting
unfolding run transition
events_submit = refl

no_submission_before_persistence_example : WasPersisted SendStage.validating events
unfolding run transition
no_submission_before_persistence_example = no_submission_before_persistence events refl

-- A workflow for a message that the caller signed, at its successive stages.
abbrev at :
    SendStage → Bool → Option FreshSendAccount → Option (PreparedTransfer ℕ) → SendWorkflow ℕ
at stage force fresh prepared = record {
  record_id = "record";
  source = wallet_address;
  request = request_of force;
  kind = external;
  local_secret_ref = none;
  stage = stage;
  fresh_account = fresh;
  prepared = prepared;
  journal_version = none;
  provider_reference = none;
  diagnostic = none;
}

abbrev preparing : SendWorkflow ℕ
preparing = at SendStage.preparing false (some account) none

abbrev persisting : SendWorkflow ℕ
persisting = at SendStage.persisting_prepared false (some account) (some transfer)

abbrev early : SendStage → SendWorkflow ℕ
early stage = at stage false none none

created-Reached : Reached codec (early SendStage.validating)
unfolding new_with_kind
created-Reached = created "record" wallet_address (request_of false) none external refl

loading-Reached : Reached codec (early SendStage.loading_journal)
unfolding begin transition
loading-Reached = called created-Reached (begins refl)

fetching-Reached : Reached codec (early SendStage.fetching_fresh_account)
unfolding journal_loaded transition
fetching-Reached = called loading-Reached (loads_journal none refl)

preparing-Reached : Reached codec preparing
unfolding prepared_account_loaded transition permits_send
preparing-Reached = called fetching-Reached (loads_prepared_account account refl)

abbrev exchange : JournalCompareExchange
exchange = record {
  key = record { record_id = "record"; slot = send_slot };
  expected_version = none;
  replacement = record { version = 1; payload = 1 ∷ [] };
}

transfer_is_written : persist_directive codec persisting ≡ ok (persist_journal exchange)
unfolding persist_directive
transfer_is_written = rw write_signed

transfer_is_prepared :
    transfer_prepared codec transfer preparing ≡ (persisting, ok (persist_journal exchange))
unfolding transfer_prepared transition address_eq messages_eq message_eq amount_eq body_eq option_eq
transfer_is_prepared = rw write_signed

persisting-Reached : Reached codec persisting
persisting-Reached = called preparing-Reached (prepares transfer (rw transfer_is_prepared))

Reached-Inv_example : Inv persisting
Reached-Inv_example = Reached-Inv codec persisting-Reached

abbrev applied : JournalCompareExchangeResult
applied = record { applied = true; current = none }

write_leads_to_submission : (journal_persisted applied persisting).1 ≡ ok (submit signed hash)
unfolding journal_persisted transition
write_leads_to_submission = refl

submit-IsCleared_example : IsCleared persisting applied signed hash
submit-IsCleared_example =
    submit-IsCleared codec persisting applied signed hash persisting-Reached
      write_leads_to_submission

-- A later send of the same wallet, forced or not.
abbrev later : Bool → SendWorkflow ℕ
later force = at SendStage.loading_journal force none none

restart_after_write_example : (journal_loaded codec (some exchange.replacement) (later true)).1 ≡ (
    if permits_replacement (durable_stage SendStage.persisting_prepared external)
      || true && permits_forced_replacement (durable_stage SendStage.persisting_prepared external)
    then ok fetch_fresh_account
    else err previous_submission_unresolved)
restart_after_write_example =
    restart_after_write codec persisting (later true) exchange codec-IsFaithful persisting-Reached
      transfer_is_written refl refl refl

no_second_signature_example :
    (journal_loaded codec (some exchange.replacement) (later false)).1
    ≡ err previous_submission_unresolved
no_second_signature_example =
    no_second_signature codec preparing (later false) transfer exchange codec-IsFaithful
      preparing-Reached (rw transfer_is_prepared) (rw transfer_is_prepared)
      (rw transfer_is_prepared) refl
