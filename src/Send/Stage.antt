-- ===== src/Send/Stage.antt =====
-- The stages of a send and their transition table (src/wallet/send.rs, `SendStage`).
pub mod Laws
pub mod Trace
use wallet_engine.Base.{ℕ, ◌==◌, Bool, true, false, Option, none, some, if◌then◌else◌}
use wallet_engine.Domain.Send.{SendPhase}

pub data SendStage : Type 0 where
  validating loading_journal fetching_fresh_account authorizing preparing : SendStage
  persisting_prepared ready_to_submit submitting submission_unknown submitted : SendStage
  handed_off confirmed replaced sequence_number_consumed expired superseded : SendStage
  failed cancelled : SendStage

pub data SendEvent : Type 0 where
  begin journal_loaded fresh_account_loaded prepared_account_loaded : SendEvent
  authorization_succeeded transfer_prepared prepared_journal_persisted : SendEvent
  internal_message_journal_persisted submission_started submission_succeeded : SendEvent
  submission_unknown submission_rejected terminal_journal_persisted : SendEvent
  journal_conflict cancel : SendEvent

unfoldable pub is_terminal : SendStage → Bool
is_terminal SendStage.submission_unknown = true
is_terminal SendStage.submitted = true
is_terminal SendStage.handed_off = true
is_terminal SendStage.confirmed = true
is_terminal SendStage.replaced = true
is_terminal SendStage.sequence_number_consumed = true
is_terminal SendStage.expired = true
is_terminal SendStage.superseded = true
is_terminal SendStage.failed = true
is_terminal SendStage.cancelled = true
is_terminal _ = false

unfoldable pub permits_replacement : SendStage → Bool
permits_replacement SendStage.confirmed = true
permits_replacement SendStage.replaced = true
permits_replacement SendStage.sequence_number_consumed = true
permits_replacement SendStage.expired = true
permits_replacement SendStage.superseded = true
permits_replacement SendStage.failed = true
permits_replacement SendStage.cancelled = true
permits_replacement _ = false

unfoldable pub permits_forced_replacement : SendStage → Bool
permits_forced_replacement SendStage.ready_to_submit = true
permits_forced_replacement SendStage.submitting = true
permits_forced_replacement SendStage.submission_unknown = true
permits_forced_replacement SendStage.submitted = true
permits_forced_replacement SendStage.handed_off = true
permits_forced_replacement _ = false

unfoldable pub after_cancellation : SendStage → SendStage
unfolding is_terminal
after_cancellation s = if is_terminal s then s else SendStage.cancelled

-- `none` means that the event is out of order.
unfoldable pub transition : SendStage → SendEvent → Option SendStage
unfolding is_terminal after_cancellation
transition SendStage.validating SendEvent.begin = some SendStage.loading_journal
transition SendStage.loading_journal SendEvent.journal_loaded =
    some SendStage.fetching_fresh_account
transition SendStage.fetching_fresh_account SendEvent.fresh_account_loaded =
    some SendStage.authorizing
transition SendStage.fetching_fresh_account SendEvent.prepared_account_loaded =
    some SendStage.preparing
transition SendStage.authorizing SendEvent.authorization_succeeded = some SendStage.preparing
transition SendStage.preparing SendEvent.transfer_prepared = some SendStage.persisting_prepared
transition SendStage.persisting_prepared SendEvent.prepared_journal_persisted =
    some SendStage.ready_to_submit
transition SendStage.persisting_prepared SendEvent.internal_message_journal_persisted =
    some SendStage.handed_off
transition SendStage.ready_to_submit SendEvent.submission_started = some SendStage.submitting
transition SendStage.submitting SendEvent.submission_succeeded = some SendStage.submitted
transition SendStage.submitting SendEvent.submission_unknown = some SendStage.submission_unknown
transition SendStage.submitting SendEvent.submission_rejected = some SendStage.failed
transition SendStage.submission_unknown SendEvent.terminal_journal_persisted =
    some SendStage.submission_unknown
transition SendStage.submitted SendEvent.terminal_journal_persisted = some SendStage.submitted
transition SendStage.handed_off SendEvent.terminal_journal_persisted = some SendStage.handed_off
transition SendStage.failed SendEvent.terminal_journal_persisted = some SendStage.failed
transition SendStage.cancelled SendEvent.terminal_journal_persisted = some SendStage.cancelled
transition s SendEvent.journal_conflict = if is_terminal s then none else some SendStage.failed
transition s SendEvent.cancel = some (after_cancellation s)
transition _ _ = none

unfoldable pub public_phase : SendStage → SendPhase
public_phase SendStage.validating = SendPhase.validating
public_phase SendStage.loading_journal = SendPhase.validating
public_phase SendStage.fetching_fresh_account = SendPhase.validating
public_phase SendStage.authorizing = SendPhase.authorizing
public_phase SendStage.preparing = SendPhase.preparing
public_phase SendStage.persisting_prepared = SendPhase.persisting
public_phase SendStage.ready_to_submit = SendPhase.ready_to_submit
public_phase SendStage.submitting = SendPhase.submitting
public_phase SendStage.submission_unknown = SendPhase.submission_unknown
public_phase SendStage.submitted = SendPhase.submitted
public_phase SendStage.handed_off = SendPhase.handed_off
public_phase SendStage.confirmed = SendPhase.confirmed
public_phase SendStage.replaced = SendPhase.replaced
public_phase SendStage.sequence_number_consumed = SendPhase.sequence_number_consumed
public_phase SendStage.expired = SendPhase.expired
public_phase SendStage.superseded = SendPhase.superseded
public_phase SendStage.failed = SendPhase.failed
public_phase SendStage.cancelled = SendPhase.cancelled

-- The derived `PartialEq` compares the discriminants.
abbrev pub discriminant : SendStage → ℕ
discriminant SendStage.validating = 0
discriminant SendStage.loading_journal = 1
discriminant SendStage.fetching_fresh_account = 2
discriminant SendStage.authorizing = 3
discriminant SendStage.preparing = 4
discriminant SendStage.persisting_prepared = 5
discriminant SendStage.ready_to_submit = 6
discriminant SendStage.submitting = 7
discriminant SendStage.submission_unknown = 8
discriminant SendStage.submitted = 9
discriminant SendStage.handed_off = 10
discriminant SendStage.confirmed = 11
discriminant SendStage.replaced = 12
discriminant SendStage.sequence_number_consumed = 13
discriminant SendStage.expired = 14
discriminant SendStage.superseded = 15
discriminant SendStage.failed = 16
discriminant SendStage.cancelled = 17

unfoldable pub stage_eq : SendStage → SendStage → Bool
stage_eq s t = discriminant s == discriminant t
