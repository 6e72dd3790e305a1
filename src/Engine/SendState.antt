-- ===== src/Engine/SendState.antt =====
-- The tracking of the active send (src/engine/send_state.rs, and the last section of
-- src/engine/send.rs).
use wallet_engine.Base.{
  ℕ, Bool, true, false, not, Option, none, some, List, [], ◌∷◌, ◌++◌, ◌==◌, if◌then◌else◌,
}
use wallet_engine.Base.Results.{Result, ok, err, ◌>>◌}
use wallet_engine.Types.Texts.{Text}
use wallet_engine.Domain.Diagnostic.{bounded_diagnostic}
use wallet_engine.Domain.Send.{SendSnapshot, SendPhase}
use wallet_engine.Send.Record.{
  SendWorkflowError, invalid_transition, prepared_transfer_mismatch, journal_conflict,
  account_unavailable, invalid_journal, previous_submission_unresolved,
}
use wallet_engine.Send.Workflow.Steps.{SendWorkflow, snapshot}
use wallet_engine.Engine.Snapshot.{HttpRequestId}
use wallet_engine.Engine.State.{
  State, Outcome, returns, next_revision, is_current, OperationFamily, WalletClientError,
  state_unavailable, shutdown, send_failed, submission_unknown, send_already_in_progress,
  send_account_unavailable,
}

unfoldable pub same_id : HttpRequestId → HttpRequestId → Bool
same_id a b = a.value == b.value

-- `request_ids.retain(|active| *active != request_id)`
unfoldable pub without_id : HttpRequestId → List HttpRequestId → List HttpRequestId
unfolding same_id
without_id id [] = []
without_id id (x ∷ xs) = if same_id x id then without_id id xs else x ∷ without_id id xs

-- `send_workflow_error`: the public error, by the reducer's error and its bounded text.
unfoldable pub public_error : SendWorkflowError → Text → WalletClientError
public_error journal_conflict diagnostic = send_already_in_progress
public_error previous_submission_unresolved diagnostic =
    WalletClientError.previous_submission_unresolved
public_error (account_unavailable status) diagnostic = send_account_unavailable status
public_error (invalid_transition stage event) diagnostic = send_failed diagnostic
public_error prepared_transfer_mismatch diagnostic = send_failed diagnostic
public_error (invalid_journal message) diagnostic = send_failed diagnostic

module _ {A : Type 0} where
  -- `state.next_revision()?; Ok(x)`
  unfoldable pub publish : {X : Type 0} → State A → X → Outcome A X
  unfolding next_revision
  publish s x =
      let o = next_revision s in
      record { state = o.state; woken = o.woken; result = o.result >> ok x }

  unfoldable pub set_send : State A → SendSnapshot → State A
  set_send s send = record s { snapshot = record (s.snapshot) { send = send } }

  -- The two assignments that end an attempt.
  unfoldable pub clear_send : State A → State A
  clear_send s = record s { active_send = none; send_commit_started = false }

  unfoldable pub publish_prior_send_resolution : ℕ → SendSnapshot → State A → Outcome A (Unit {0})
  unfolding is_current publish set_send
  publish_prior_send_resolution generation send s =
      if not (is_current s OperationFamily.send generation)
      then returns s (err state_unavailable)
      else publish (set_send s send) tt

  unfoldable pub block_send_for_pending : ℕ → SendSnapshot → State A → Outcome A WalletClientError
  unfolding is_current publish set_send clear_send
  block_send_for_pending generation send s =
      if not (is_current s OperationFamily.send generation)
      then returns s (err state_unavailable)
      else publish (set_send (record (clear_send s) { send_workflow = none }) send)
          WalletClientError.previous_submission_unresolved

  -- The body that `fail_send` and `mark_send_unknown` share.
  unfoldable pub end_send : SendPhase → ℕ → Text → State A → Outcome A (Unit {0})
  unfolding is_current publish set_send clear_send
  end_send phase generation message s =
      if is_current s OperationFamily.send generation
      then publish
          (set_send (clear_send s) (record (s.snapshot.send) {
            phase = phase;
            error_message = some (bounded_diagnostic message);
          }))
          tt
      else returns s (ok tt)

  unfoldable pub fail_send : ℕ → Text → State A → Outcome A (Unit {0})
  unfolding end_send
  fail_send = end_send SendPhase.failed

  unfoldable pub mark_send_unknown : ℕ → Text → State A → Outcome A (Unit {0})
  unfolding end_send
  mark_send_unknown = end_send SendPhase.submission_unknown

  -- `match self.fail_send(…) { Ok(()) => error, Err(error) => error }`
  unfoldable pub reported : Outcome A (Unit {0}) → WalletClientError → Outcome A WalletClientError
  reported o error = record {
    state = o.state;
    woken = o.woken;
    result = elim o.result [ ok _ ↦ ok error | err e ↦ ok e ];
  }

  unfoldable pub send_failed_error : ℕ → Text → State A → Outcome A WalletClientError
  unfolding fail_send reported
  send_failed_error generation message s =
      let diagnostic = bounded_diagnostic message in
      reported (fail_send generation diagnostic s) (send_failed diagnostic)

  -- `message` is the error's text.
  unfoldable pub send_workflow_error :
      ℕ → SendWorkflowError → Text → State A → Outcome A WalletClientError
  unfolding fail_send reported public_error
  send_workflow_error generation error message s =
      let diagnostic = bounded_diagnostic message in
      reported (fail_send generation diagnostic s) (public_error error diagnostic)

  unfoldable pub submission_unknown_error : ℕ → Text → State A → Outcome A WalletClientError
  unfolding mark_send_unknown reported
  submission_unknown_error generation message s =
      let diagnostic = bounded_diagnostic message in
      reported (mark_send_unknown generation diagnostic s) (submission_unknown diagnostic)

  unfoldable pub ensure_current_send : ℕ → State A → Result WalletClientError (Unit {0})
  unfolding is_current
  ensure_current_send generation s =
      if s.shutdown
      then err shutdown
      else if not (is_current s OperationFamily.send generation)
      then err state_unavailable
      else ok tt

  unfoldable pub begin_send_commit : ℕ → State A → Outcome A (Unit {0})
  unfolding is_current
  begin_send_commit generation s =
      if s.shutdown
      then returns s (err shutdown)
      else if not (is_current s OperationFamily.send generation)
      then returns s (err state_unavailable)
      else returns (record s { send_commit_started = true }) (ok tt)

  unfoldable pub publish_send_workflow : ℕ → SendWorkflow A → State A → Outcome A (Unit {0})
  unfolding is_current publish set_send snapshot
  publish_send_workflow generation workflow s =
      if not (is_current s OperationFamily.send generation)
      then returns s (err state_unavailable)
      else publish (record (set_send s (snapshot workflow)) { send_workflow = some workflow }) tt

  -- The change of the request list in `start_send_request` and `finish_send_request`, by the active send.
  unfoldable pub change_active :
      (List HttpRequestId → List HttpRequestId)
      → ℕ
      → State A
      → Option (ℕ × List HttpRequestId)
      → Outcome A (Unit {0})
  change_active f generation s none = returns s (err state_unavailable)
  change_active f generation s (some (active, ids)) =
      if not (active == generation)
      then returns s (err state_unavailable)
      else returns (record s { active_send = some (active, f ids) }) (ok tt)

  unfoldable pub change_requests :
      (List HttpRequestId → List HttpRequestId) → ℕ → State A → Outcome A (Unit {0})
  unfolding change_active
  change_requests f generation s =
      if s.shutdown then returns s (err shutdown) else change_active f generation s s.active_send

  unfoldable pub start_send_request : ℕ → HttpRequestId → State A → Outcome A (Unit {0})
  unfolding change_requests
  start_send_request generation id = change_requests (λ ids. ids ++ (id ∷ [])) generation

  unfoldable pub finish_send_request : ℕ → HttpRequestId → State A → Outcome A (Unit {0})
  unfolding change_requests without_id
  finish_send_request generation id = change_requests (without_id id) generation

  -- The last section of `submit_prepared_send`.
  unfoldable pub finish_send : ℕ → SendWorkflow A → State A → Outcome A (Unit {0})
  unfolding is_current publish set_send clear_send snapshot
  finish_send generation workflow s =
      if is_current s OperationFamily.send generation
      then publish
          (clear_send (record (set_send s (snapshot workflow)) { send_workflow = some workflow }))
          tt
      else returns s (ok tt)
