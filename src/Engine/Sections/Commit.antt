-- ===== src/Engine/Sections/Commit.antt =====
-- The commit boundary of a send (src/engine/send.rs, `cancel_send`; src/engine/client.rs, `shutdown`).
use wallet_engine.Base.{
  ℕ, true, false, ◌&&◌, ◌≡◌, refl, Option, none, some, List, arith, if-cases, is_some, ◌∙◌,
  Option-cases, inl, inr,
}
use wallet_engine.Base.Words.{checked_add}
use wallet_engine.Base.Interface.{Eq}
use wallet_engine.Base.Results.{ok, err}
use wallet_engine.Send.Record.{RecordCodec}
use wallet_engine.Send.Workflow.Steps.{SendWorkflow}
use wallet_engine.Engine.Snapshot.{HttpRequestId}
use wallet_engine.Engine.State.{
  State, Outcome, send_cancellation_too_late, next_revision, with_revision,
}
use wallet_engine.Engine.State.Sound.{IsSound}
use wallet_engine.Engine.SendState.{clear_send, publish, set_send}
use wallet_engine.Engine.Client.{
  cancel_send, cancel_active, cancelled_send, show_cancelled, cancelled_workflow, shutdown_turn,
  ShutdownAction, wait,
}

module _ {A : Type 0} where
  publish-active :
      {X : Type 0} (s : State A) (x : X) → (publish s x).state.active_send ≡ s.active_send
  unfolding publish next_revision with_revision
  publish-active s x = elim (Option-cases (checked_add s.snapshot.revision 1)) [
    | inl exhausted ↦ rw (next_revision, exhausted) refl
    | inr (revision, is) ↦ rw (next_revision, is) refl
  ]

module _ {A : Type 0} ⦃e : Eq A⦄ (codec : RecordCodec A) where
  shown-active :
      (w : Option (SendWorkflow A)) (s : State A)
      → (show_cancelled codec w s).active_send ≡ s.active_send
  unfolding show_cancelled set_send
  shown-active none s = refl
  shown-active (some w) s = refl

  cancelled-inactive :
      (active : Option (ℕ × List HttpRequestId)) (s : State A)
      → s.active_send ≡ none
      → (cancel_active codec active s).state.active_send ≡ none
  unfolding cancel_active cancelled_send
  cancelled-inactive none s h = h
  cancelled-inactive (some (g, ids)) s h =
      publish-active _ ids ∙ (shown-active (cancelled_workflow codec s.send_workflow) s ∙ h)

  IsRefused : State A → Outcome A (List HttpRequestId) → Type 0
  IsRefused s o = (o.result ≡ err send_cancellation_too_late) × (o.state ≡ s)

  IsWaiting : ℕ → State A → Outcome A ShutdownAction → Type 0
  IsWaiting channel s o = (o.result ≡ ok (wait channel)) × (o.state.active_send ≡ s.active_send)

  -- A send that has crossed its commit boundary cannot be cancelled, and a shutdown waits for it; one that
  -- has not is gone after a cancellation.
  pub commit_boundary :
      (channel : ℕ) (s : State A)
      → IsSound s
      → (s.send_commit_started ≡ true
          → ((cancel_send codec s).result ≡ err send_cancellation_too_late)
            × ((cancel_send codec s).state ≡ s)
            × ((shutdown_turn codec channel s).result ≡ ok (wait channel))
            × ((shutdown_turn codec channel s).state.active_send ≡ s.active_send))
        × (s.send_commit_started ≡ false → (cancel_send codec s).state.active_send ≡ none)
  unfolding cancel_send shutdown_turn clear_send IsRefused IsWaiting
  commit_boundary channel s i = (
    λ committed.
        let guard : (is_some s.active_send && s.send_commit_started) ≡ true =
          rw (committed, i.committed committed) refl in
        let (refused, same) =
          if-cases (IsRefused s) (is_some s.active_send && s.send_commit_started) _ _
            (λ _. (refl, refl)) (λ passes. absurd cc) in
        let (waits, kept) =
          if-cases (IsWaiting channel s) s.shutdown _ _ (λ down. absurd (cc (i.stopped down).0))
            (λ _.
              if-cases (IsWaiting channel s) (is_some s.active_send && s.send_commit_started) _ _
                (λ _. (refl, refl)) (λ passes. absurd cc)) in
        (refused, same, waits, kept),
    λ uncommitted.
        if-cases (λ (o : Outcome A (List HttpRequestId)). o.state.active_send ≡ none)
          (is_some s.active_send && s.send_commit_started) _ _ (λ passes. absurd (ground arith))
          (λ _. cancelled-inactive s.active_send (clear_send s) refl),
  )
