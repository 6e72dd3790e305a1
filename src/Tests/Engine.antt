-- ===== src/Tests/Engine.antt =====
-- Runs of the wallet client's critical sections, and their theorems at one state (src/engine).
mod Resolution
mod Loading
mod Comment
use wallet_engine.Base.{
  ℕ, ◌≤◌, ◌<◌, true, false, ◌≡◌, ◌⊎◌, ◌↔◌, ◌+◌, refl, none, some, List, [], ◌∷◌, arith,
}
use wallet_engine.Base.Words.{u64_max}
use wallet_engine.Base.Results.{ok, err}
use wallet_engine.Engine.Snapshot.{WalletClientConfig, Network, empty_snapshot}
use wallet_engine.Engine.State.{
  State, Waiter, is_current, is_generation, OperationFamily, next_revision, identifier_exhausted,
  send_cancellation_too_late,
}
use wallet_engine.Engine.State.Sound.{IsSound}
use wallet_engine.Engine.State.Waiters.{next_revision_wakes}
use wallet_engine.Engine.Client.{
  new_state, cancel_send, shutdown_turn, wait, prepare_shutdown, has_active_work, active_requests,
}
use wallet_engine.Engine.Sections.{shuts, commits, run_send, run}
use wallet_engine.Engine.Sections.Stale.{stale_send_section}
use wallet_engine.Engine.Sections.Whole.{section-IsSound}
use wallet_engine.Engine.Sections.Active.{IsIn, IsIdle, IsActiveRequest}
use wallet_engine.Engine.Snapshot.{HttpRequestId}
use wallet_engine.Engine.Sections.Shutdown.{prepare_shutdown_atomic}
use wallet_engine.Engine.Sections.Commit.{commit_boundary}
use wallet_engine.Tests.Send.Values.{address_number, wallet_address, codec}

abbrev pub config : WalletClientConfig ℕ
config = record {
  record_id = "record";
  address = wallet_address;
  public_key = [];
  local_secret_ref = none;
  network = Network.testnet;
  send_validity_seconds = 300;
  resolution_margin_seconds = 60;
  providers = record {
    toncenter_base_url = "https://toncenter.com";
    dns_root_address = none;
    request_timeout_ms = 1000;
  };
}

-- A send past its commit boundary, and one waiter.
abbrev busy : State ℕ
busy = record (new_state config) {
  send_generation = 1;
  active_send = some (1, record { value = 7 } ∷ []);
  send_commit_started = true;
  waiters = record { after = 0; channel = 5 } ∷ [];
}

busy-IsSound : IsSound busy
unfolding new_state empty_snapshot
busy-IsSound = record {
  bounded = omega arith;
  waits = (omega arith, tt);
  committed = λ _. refl;
  stopped = λ h. absurd cc;
}

next_revision_wakes_example :
    (1 ≤ u64_max
      → ((next_revision busy).result ≡ ok tt)
        × ((next_revision busy).state.snapshot.revision ≡ 1)
        × ((next_revision busy).woken ≡ 5 ∷ [])
        × ((next_revision busy).state.waiters ≡ []))
    × (u64_max < 1 → ((next_revision busy).state ≡ busy) × ((next_revision busy).woken ≡ []))
unfolding new_state empty_snapshot
next_revision_wakes_example = next_revision_wakes busy

stale : is_current busy OperationFamily.send 2 ≡ false
unfolding is_current is_generation
stale = refl

stale_send_section_example : run_send 2 commits busy ≡ (busy, [])
stale_send_section_example = stale_send_section 2 commits busy stale

section-IsSound_example : IsSound (run codec (shuts 9) busy)
section-IsSound_example = section-IsSound codec (shuts 9) busy busy-IsSound

commit_boundary_example :
    (true ≡ true
      → ((cancel_send codec busy).result ≡ err send_cancellation_too_late)
        × ((cancel_send codec busy).state ≡ busy)
        × ((shutdown_turn codec 9 busy).result ≡ ok (wait 9))
        × ((shutdown_turn codec 9 busy).state.active_send ≡ some (1, record { value = 7 } ∷ [])))
    × (true ≡ false → (cancel_send codec busy).state.active_send ≡ none)
commit_boundary_example = commit_boundary codec 9 busy busy-IsSound

prepare_shutdown_atomic_example :
    let o = prepare_shutdown codec busy in
    ((o.result ≡ err identifier_exhausted)
      × (o.state ≡ busy)
      × (o.woken ≡ [])
      × (busy.snapshot.revision ≡ u64_max)
      × (¬ IsIdle busy))
    ⊎ ((ids : List HttpRequestId) × (left : List Waiter) × (o.result ≡ ok (ids, left))
        × ((id : HttpRequestId) → IsIn id ids ↔ IsActiveRequest busy id)
        × IsIdle o.state
        × (o.state.send_commit_started ≡ false)
        × (o.state.shutdown ≡ true)
        × (o.state.waiters ≡ [])
        × ((IsIdle busy × (o.state.snapshot.revision ≡ busy.snapshot.revision))
            ⊎ ((¬ IsIdle busy) × (o.state.snapshot.revision ≡ busy.snapshot.revision + 1))))
prepare_shutdown_atomic_example = prepare_shutdown_atomic codec busy busy-IsSound
