-- ===== src/Engine/Sections.antt =====
-- The critical sections of src/engine/send_state.rs, src/engine/client.rs and `cancel_send`, as one
-- step of the client's state.
pub mod Stale
pub mod Kept
pub mod Active
pub mod Shutdown
pub mod Whole
pub mod Commit
use wallet_engine.Base.{
  ℕ, ◌+◌, ◌≤◌, Bool, true, false, not, ◌||◌, ◌&&◌, ◌≡◌, refl, Option, none, some, List, [], ◌∷◌,
  ◌++◌, arith, ltb, ◌==◌, if◌then◌else◌, is_some, All, Bool-cases, Option-cases, inl, inr,
}
use wallet_engine.Base.Words.{u64_max, checked_add}
use wallet_engine.Base.Interface.{Eq}
use wallet_engine.Base.Results.{Result, ok, err}
use wallet_engine.Types.Texts.{Text}
use wallet_engine.Domain.Send.{SendSnapshot, SendPhase}
use wallet_engine.Send.Record.{RecordCodec, SendWorkflowError}
use wallet_engine.Send.Workflow.Steps.{SendWorkflow, snapshot}
use wallet_engine.Engine.Snapshot.{HttpRequestId}
use wallet_engine.Engine.State.{
  State, Outcome, Waiter, returns, is_current, OperationFamily, allocate_request_id, next_revision,
}
use wallet_engine.Engine.State.Sound.{
  IsSound, publish-IsSound, set_send-IsSound, clear_send-IsSound, next_revision-IsSound,
}
use wallet_engine.Engine.SendState.{
  publish, set_send, clear_send, publish_prior_send_resolution, block_send_for_pending, end_send,
  fail_send, mark_send_unknown, begin_send_commit, publish_send_workflow, change_requests,
  start_send_request, finish_send_request, finish_send,
}
use wallet_engine.Engine.Client.{
  wait_for_change, cancel_send, cancelled_send, cancelled_workflow, shutdown_turn, prepare_shutdown,
  finish_action, close, stop_all, stop_send, has_active_work, active_requests,
}

-- The sections that belong to a generation of the send.
pub data SendSection (A : Type 0) : Type 0 where
  resolves_prior blocks : SendSnapshot → SendSection A
  fails turns_unknown : Text → SendSection A
  commits : SendSection A
  publishes finishes : SendWorkflow A → SendSection A
  starts_request finishes_request : HttpRequestId → SendSection A

pub data Section (A : Type 0) : Type 0 where
  allocates cancels : Section A
  sends : ℕ → SendSection A → Section A
  awaits : (after channel : ℕ) → Section A
  shuts : (channel : ℕ) → Section A

module _ {A : Type 0} where
  -- The state after a section of the send of a generation, and the channels that were sent to.
  unfoldable pub run_send : ℕ → SendSection A → State A → State A × List ℕ
  unfolding publish_prior_send_resolution block_send_for_pending fail_send mark_send_unknown
      begin_send_commit publish_send_workflow finish_send start_send_request finish_send_request
  run_send g (resolves_prior v) s =
      let o = publish_prior_send_resolution g v s in (o.state, o.woken)
  run_send g (blocks v) s = let o = block_send_for_pending g v s in (o.state, o.woken)
  run_send g (fails message) s = let o = fail_send g message s in (o.state, o.woken)
  run_send g (turns_unknown message) s = let o = mark_send_unknown g message s in (o.state, o.woken)
  run_send g commits s = let o = begin_send_commit g s in (o.state, o.woken)
  run_send g (publishes w) s = let o = publish_send_workflow g w s in (o.state, o.woken)
  run_send g (finishes w) s = let o = finish_send g w s in (o.state, o.woken)
  run_send g (starts_request id) s = let o = start_send_request g id s in (o.state, o.woken)
  run_send g (finishes_request id) s = let o = finish_send_request g id s in (o.state, o.woken)

module _ {A : Type 0} ⦃e : Eq A⦄ (codec : RecordCodec A) where
  unfoldable pub run : Section A → State A → State A
  unfolding run_send allocate_request_id cancel_send wait_for_change shutdown_turn
  run allocates s = (allocate_request_id s).state
  run cancels s = (cancel_send codec s).state
  run (sends g section) s = (run_send g section s).0
  run (awaits after channel) s = (wait_for_change after channel s).state
  run (shuts channel) s = (shutdown_turn codec channel s).state
