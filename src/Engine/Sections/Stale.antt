-- ===== src/Engine/Sections/Stale.antt =====
-- A section of a send that is over (src/engine/send_state.rs).
use wallet_engine.Base.{ℕ, false, ◌≡◌, refl, Option, none, some, List, [], if-cases}
use wallet_engine.Engine.Snapshot.{HttpRequestId}
use wallet_engine.Engine.State.{State, Outcome, is_current, is_generation, OperationFamily}
use wallet_engine.Engine.SendState.{
  publish_prior_send_resolution, block_send_for_pending, end_send, fail_send, mark_send_unknown,
  begin_send_commit, publish_send_workflow, change_requests, change_active, start_send_request,
  finish_send_request, finish_send,
}
use wallet_engine.Engine.Sections.{
  SendSection, resolves_prior, blocks, fails, turns_unknown, commits, publishes, finishes,
  starts_request, finishes_request, run_send,
}

-- The section leaves the state as it was and wakes nobody.
abbrev IsInert : {A X : Type 0} → State A → Outcome A X → Type 0
IsInert s o = (o.state ≡ s) × (o.woken ≡ [])

module _ {A : Type 0} where
  both :
      {s s' : State A} {woken : List ℕ}
      → (s' ≡ s) × (woken ≡ [])
      → ◌≡◌ {A = State A × List ℕ} (s', woken) (s, [])
  both (same, quiet) = λ i. (same i, quiet i)

  commit-stale :
      (g : ℕ) (s : State A)
      → is_current s OperationFamily.send g ≡ false
      → IsInert s (begin_send_commit g s)
  unfolding begin_send_commit
  commit-stale g s h =
      if-cases (IsInert s) s.shutdown _ _ (λ _. (refl, refl)) λ _. rw h (refl, refl)

  active-stale :
      (f : List HttpRequestId → List HttpRequestId) (g : ℕ) (s : State A)
      (active : Option (ℕ × List HttpRequestId))
      → is_generation active g ≡ false
      → IsInert s (change_active f g s active)
  unfolding change_active is_generation
  active-stale f g s none h = (refl, refl)
  active-stale f g s (some (active, ids)) h = rw h (refl, refl)

  requests-stale :
      (f : List HttpRequestId → List HttpRequestId) (g : ℕ) (s : State A)
      → is_current s OperationFamily.send g ≡ false
      → IsInert s (change_requests f g s)
  unfolding change_requests is_current
  requests-stale f g s h =
      if-cases (IsInert s) s.shutdown _ _ (λ _. (refl, refl))
        λ _. active-stale f g s s.active_send h

  -- A section of a send whose generation is not the active one changes nothing and wakes nobody.
  pub stale_send_section :
      (g : ℕ) (section : SendSection A) (s : State A)
      → is_current s OperationFamily.send g ≡ false
      → run_send g section s ≡ (s, [])
  unfolding run_send publish_prior_send_resolution block_send_for_pending fail_send
      mark_send_unknown end_send publish_send_workflow finish_send start_send_request
      finish_send_request
  stale_send_section g (resolves_prior v) s h = rw h refl
  stale_send_section g (blocks v) s h = rw h refl
  stale_send_section g (fails message) s h = rw h refl
  stale_send_section g (turns_unknown message) s h = rw h refl
  stale_send_section g commits s h = both (commit-stale g s h)
  stale_send_section g (publishes w) s h = rw h refl
  stale_send_section g (finishes w) s h = rw h refl
  stale_send_section g (starts_request id) s h = both (requests-stale _ g s h)
  stale_send_section g (finishes_request id) s h = both (requests-stale _ g s h)
