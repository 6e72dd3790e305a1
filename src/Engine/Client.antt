-- ===== src/Engine/Client.antt =====
-- Waiting, cancellation and shutdown (src/engine/client.rs, and `cancel_send` of src/engine/send.rs).
use wallet_engine.Base.{
  ℕ, Bool, true, false, ◌||◌, ◌&&◌, Option, none, some, List, [], ◌∷◌, ◌++◌, ltb, ◌==◌,
  if◌then◌else◌, is_some,
}
use wallet_engine.Base.Words.{u64_max}
use wallet_engine.Base.Interface.{Eq}
use wallet_engine.Base.Results.{ok, err}
use wallet_engine.Domain.Send.{SendPhase}
use wallet_engine.Send.Record.{RecordCodec}
use wallet_engine.Send.Workflow.Steps.{SendWorkflow, snapshot}
use wallet_engine.Send.Workflow.Reducer.{cancel}
use wallet_engine.Engine.Snapshot.{
  HttpRequestId, WalletClientConfig, WalletSnapshot, empty_snapshot, idle_resource,
  mark_loading_cancelled,
}
use wallet_engine.Engine.State.{
  State, Outcome, Waiter, returns, next_revision, identifier_exhausted, shutdown,
  send_cancellation_too_late,
}
use wallet_engine.Engine.SendState.{set_send, clear_send, publish}

-- What the first section of `shutdown` decides.
pub data ShutdownAction : Type 0 where
  stopped : ShutdownAction
  wait : ℕ → ShutdownAction
  finish : List HttpRequestId → List Waiter → ShutdownAction

abbrev pub requests_of : Option (ℕ × List HttpRequestId) → List HttpRequestId
requests_of none = []
requests_of (some (generation, ids)) = ids

abbrev pub request_of : Option (ℕ × HttpRequestId) → List HttpRequestId
request_of none = []
request_of (some (generation, id)) = id ∷ []

module _ {A : Type 0} where
  -- The state of `with_transport`, for a validated configuration.
  unfoldable pub new_state : WalletClientConfig A → State A
  unfolding empty_snapshot
  new_state config = record {
    config = config;
    snapshot = empty_snapshot config;
    activity = [];
    activity_cursor = none;
    activity_has_more = false;
    nft_offset = 0;
    nfts_has_more = false;
    key_changes = none;
    next_id = 1;
    refresh_generation = 0;
    pagination_generation = 0;
    nft_refresh_generation = 0;
    nft_pagination_generation = 0;
    preview_generation = 0;
    send_generation = 0;
    resolution_generation = 0;
    active_refresh = none;
    active_pagination = none;
    active_nft_refresh = none;
    active_nft_pagination = none;
    active_preview = none;
    active_send = none;
    active_resolution = none;
    send_commit_started = false;
    send_workflow = none;
    waiters = [];
    shutdown = false;
    closing = false;
  }

  -- The section of `wait_for_change` that answers at once or registers the channel.
  unfoldable pub wait_for_change : ℕ → ℕ → State A → Outcome A (Option (WalletSnapshot A))
  wait_for_change after_revision channel s =
      if s.closing || s.shutdown
      then returns s (err shutdown)
      else if ltb after_revision s.snapshot.revision
      then returns s (ok (some s.snapshot))
      else returns
          (record s {
            waiters = s.waiters ++ (record { after = after_revision; channel = channel } ∷ []);
          })
          (ok none)

  unfoldable pub has_active_work : State A → Bool
  has_active_work s =
      is_some s.active_refresh
      || is_some s.active_pagination
      || is_some s.active_nft_refresh
      || is_some s.active_nft_pagination
      || is_some s.active_preview
      || is_some s.active_send
      || is_some s.active_resolution

  -- The requests that shutdown cancels, in its order.
  unfoldable pub active_requests : State A → List HttpRequestId
  active_requests s =
      requests_of s.active_refresh
      ++ (request_of s.active_pagination
          ++ (request_of s.active_nft_refresh
              ++ (request_of s.active_nft_pagination
                  ++ (requests_of s.active_preview
                      ++ (requests_of s.active_send ++ requests_of s.active_resolution)))))

  -- The resources that a stopped operation leaves.
  unfoldable pub stop_refresh : State A → WalletSnapshot A → WalletSnapshot A
  unfolding mark_loading_cancelled
  stop_refresh s v =
      if is_some s.active_refresh
      then record v {
        account_resource = mark_loading_cancelled v.account_resource;
        activity = record (v.activity) { resource = mark_loading_cancelled v.activity.resource };
      }
      else v

  unfoldable pub stop_pagination : State A → WalletSnapshot A → WalletSnapshot A
  stop_pagination s v =
      if is_some s.active_pagination
      then record v { activity = record (v.activity) { pagination_resource = idle_resource } }
      else v

  unfoldable pub stop_nft_refresh : State A → WalletSnapshot A → WalletSnapshot A
  unfolding mark_loading_cancelled
  stop_nft_refresh s v =
      if is_some s.active_nft_refresh
      then record v { nfts = record (v.nfts) { resource = mark_loading_cancelled v.nfts.resource } }
      else v

  unfoldable pub stop_nft_pagination : State A → WalletSnapshot A → WalletSnapshot A
  stop_nft_pagination s v =
      if is_some s.active_nft_pagination
      then record v { nfts = record (v.nfts) { pagination_resource = idle_resource } }
      else v

module _ {A : Type 0} ⦃e : Eq A⦄ (codec : RecordCodec A) where
  -- The cancelled workflow, with its error ignored.
  unfoldable pub cancelled_workflow : Option (SendWorkflow A) → Option (SendWorkflow A)
  unfolding cancel
  cancelled_workflow none = none
  cancelled_workflow (some workflow) = some ((cancel codec workflow).0)

  -- What cancellation makes of the snapshot of an active send, by its cancelled workflow.
  unfoldable pub show_cancelled : Option (SendWorkflow A) → State A → State A
  unfolding set_send snapshot
  show_cancelled none s = set_send s (record (s.snapshot.send) { phase = SendPhase.cancelled })
  show_cancelled (some workflow) s =
      set_send (record s { send_workflow = some workflow })
        (record (snapshot workflow) { phase = SendPhase.cancelled })

  unfoldable pub cancelled_send : State A → State A
  unfolding cancelled_workflow show_cancelled
  cancelled_send s = show_cancelled (cancelled_workflow s.send_workflow) s

  unfoldable pub stop_send : State A → State A
  unfolding cancelled_send
  stop_send s = if is_some s.active_send then cancelled_send s else s

  -- The section of `cancel_send` past its guard, by the send that was taken.
  unfoldable pub cancel_active :
      Option (ℕ × List HttpRequestId) → State A → Outcome A (List HttpRequestId)
  unfolding cancelled_send publish
  cancel_active none s = returns s (ok [])
  cancel_active (some (generation, ids)) s = publish (cancelled_send s) ids

  unfoldable pub cancel_send : State A → Outcome A (List HttpRequestId)
  unfolding cancel_active clear_send
  cancel_send s =
      if is_some s.active_send && s.send_commit_started
      then returns s (err send_cancellation_too_late)
      else cancel_active s.active_send (clear_send s)

  -- The resources of every operation that is stopped.
  unfoldable pub stop_resources : State A → State A
  unfolding stop_refresh stop_pagination stop_nft_refresh stop_nft_pagination
  stop_resources s = record s {
    snapshot =
        stop_nft_pagination s (stop_nft_refresh s (stop_pagination s (stop_refresh s s.snapshot)));
  }

  -- All assignments of `prepare_shutdown` before its last revision.
  unfoldable pub stop_all : State A → State A
  unfolding stop_resources stop_send
  stop_all s = record (stop_send (stop_resources s)) {
    active_refresh = none;
    active_pagination = none;
    active_nft_refresh = none;
    active_nft_pagination = none;
    active_preview = none;
    active_send = none;
    active_resolution = none;
    send_commit_started = false;
  }

  -- `state.shutdown = true; Ok((request_ids, take(waiters)))`
  unfoldable pub close :
      List HttpRequestId → Outcome A (Unit {0}) → Outcome A (List HttpRequestId × List Waiter)
  close ids o = elim o.result [
    | ok _ ↦ record {
      state = record (o.state) { shutdown = true; waiters = [] };
      woken = o.woken;
      result = ok (ids, o.state.waiters);
    }
    | err x ↦ record { state = o.state; woken = o.woken; result = err x }
  ]

  unfoldable pub prepare_shutdown : State A → Outcome A (List HttpRequestId × List Waiter)
  unfolding has_active_work active_requests stop_all close next_revision
  prepare_shutdown s =
      if has_active_work s && s.snapshot.revision == u64_max
      then returns s (err identifier_exhausted)
      else close (active_requests s)
          (if has_active_work s then next_revision (stop_all s) else returns (stop_all s) (ok tt))

  unfoldable pub finish_action :
      Outcome A (List HttpRequestId × List Waiter) → Outcome A ShutdownAction
  finish_action o = record {
    state = o.state;
    woken = o.woken;
    result = elim o.result [ ok (ids, waiters) ↦ ok (finish ids waiters) | err x ↦ err x ];
  }

  -- One turn of the loop of `shutdown`; `channel` is the channel that a waiting turn makes.
  unfoldable pub shutdown_turn : ℕ → State A → Outcome A ShutdownAction
  unfolding prepare_shutdown finish_action
  shutdown_turn channel s =
      if s.shutdown
      then returns s (ok stopped)
      else if is_some s.active_send && s.send_commit_started
      then returns
          (record s {
            closing = true;
            waiters = s.waiters ++ (record { after = s.snapshot.revision; channel = channel } ∷ []);
          })
          (ok (wait channel))
      else finish_action (prepare_shutdown (record s { closing = true }))
