-- ===== src/Engine/Sections/Kept.antt =====
-- The sections of a send keep the state sound (src/engine/send_state.rs, src/engine/client.rs).
use wallet_engine.Base.{
  ℕ, true, false, not, ◌≡◌, refl, Option, none, some, List, ◌==◌, if-cases, is_some, Bool-cases,
  Option-cases, inl, inr,
}
use wallet_engine.Send.Workflow.Steps.{SendWorkflow}
use wallet_engine.Engine.Snapshot.{HttpRequestId}
use wallet_engine.Engine.State.{
  State, Outcome, is_current, is_generation, OperationFamily, previous_submission_unresolved,
}
use wallet_engine.Engine.State.Sound.{
  IsSound, publish-IsSound, set_send-IsSound, clear_send-IsSound,
}
use wallet_engine.Engine.SendState.{
  publish_prior_send_resolution, block_send_for_pending, end_send, fail_send, mark_send_unknown,
  begin_send_commit, publish_send_workflow, change_requests, change_active, start_send_request,
  finish_send_request, finish_send,
}
use wallet_engine.Engine.Sections.{
  SendSection, resolves_prior, blocks, fails, turns_unknown, commits, publishes, finishes,
  starts_request, finishes_request, run_send,
}
use wallet_engine.Engine.Sections.Stale.{stale_send_section}

abbrev pub KeepsSound : {A X : Type 0} → Outcome A X → Type 0
KeepsSound o = IsSound o.state

module _ {A : Type 0} where
  pub set_workflow-IsSound :
      (s : State A) (w : Option (SendWorkflow A))
      → IsSound s
      → IsSound (record s { send_workflow = w })
  set_workflow-IsSound s w i = record {
    bounded = i.bounded;
    waits = i.waits;
    committed = i.committed;
    stopped = i.stopped;
  }

  current-active :
      (g : ℕ) (s : State A)
      → is_current s OperationFamily.send g ≡ true
      → is_some s.active_send ≡ true
  unfolding is_current is_generation
  current-active g s h = elim (Option-cases s.active_send) [
    | inl idle ↦ let no_send = rw (is_current, idle) at h in absurd cc
    | inr (active, is) ↦ rw is refl
  ]

  commit-IsSound :
      (g : ℕ) (s : State A)
      → is_current s OperationFamily.send g ≡ true
      → IsSound s
      → IsSound (begin_send_commit g s).state
  unfolding begin_send_commit
  commit-IsSound g s h i =
      if-cases KeepsSound s.shutdown _ _ (λ _. i)
        λ _.
          if-cases KeepsSound (not (is_current s OperationFamily.send g)) _ _ (λ _. i)
            λ _. record {
              bounded = i.bounded;
              waits = i.waits;
              committed = λ _. current-active g s h;
              stopped = i.stopped;
            }

  active-IsSound :
      (f : List HttpRequestId → List HttpRequestId) (g : ℕ) (s : State A)
      (active : Option (ℕ × List HttpRequestId))
      → s.shutdown ≡ false
      → IsSound s
      → IsSound (change_active f g s active).state
  unfolding change_active
  active-IsSound f g s none up i = i
  active-IsSound f g s (some (active, ids)) up i =
      if-cases KeepsSound (not (active == g)) _ _ (λ _. i)
        λ _. record {
          bounded = i.bounded;
          waits = i.waits;
          committed = λ _. refl;
          stopped = λ (down : s.shutdown ≡ true). absurd cc;
        }

  requests-IsSound :
      (f : List HttpRequestId → List HttpRequestId) (g : ℕ) (s : State A)
      → IsSound s
      → IsSound (change_requests f g s).state
  unfolding change_requests
  requests-IsSound f g s i =
      if-cases KeepsSound s.shutdown _ _ (λ _. i) λ up. active-IsSound f g s s.active_send up i

  current_section-IsSound :
      (g : ℕ) (section : SendSection A) (s : State A)
      → is_current s OperationFamily.send g ≡ true
      → IsSound s
      → IsSound (run_send g section s).0
  unfolding run_send publish_prior_send_resolution block_send_for_pending fail_send
      mark_send_unknown end_send publish_send_workflow finish_send start_send_request
      finish_send_request
  current_section-IsSound g (resolves_prior v) s h i =
      rw h (publish-IsSound _ tt (set_send-IsSound s v i))
  current_section-IsSound g (blocks v) s h i = rw h (
      publish-IsSound _ previous_submission_unresolved
        (set_send-IsSound _ v (set_workflow-IsSound _ none (clear_send-IsSound s i))))
  current_section-IsSound g (fails message) s h i =
      rw h (publish-IsSound _ tt (set_send-IsSound _ _ (clear_send-IsSound s i)))
  current_section-IsSound g (turns_unknown message) s h i =
      rw h (publish-IsSound _ tt (set_send-IsSound _ _ (clear_send-IsSound s i)))
  current_section-IsSound g commits s h i = commit-IsSound g s h i
  current_section-IsSound g (publishes w) s h i =
      rw h (publish-IsSound _ tt (set_workflow-IsSound _ (some w) (set_send-IsSound s _ i)))
  current_section-IsSound g (finishes w) s h i = rw h (
      publish-IsSound _ tt
        (clear_send-IsSound _ (set_workflow-IsSound _ (some w) (set_send-IsSound s _ i))))
  current_section-IsSound g (starts_request id) s h i = requests-IsSound _ g s i
  current_section-IsSound g (finishes_request id) s h i = requests-IsSound _ g s i

  pub send_section-IsSound :
      (g : ℕ) (section : SendSection A) (s : State A) → IsSound s → IsSound (run_send g section s).0
  send_section-IsSound g section s i = elim (Bool-cases (is_current s OperationFamily.send g)) [
    | inl current ↦ current_section-IsSound g section s current i
    | inr stale ↦ rw (stale_send_section g section s stale) i
  ]
