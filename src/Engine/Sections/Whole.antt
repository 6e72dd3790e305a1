-- ===== src/Engine/Sections/Whole.antt =====
-- The invariant of the client's state over the sections of a send, of waiting and of shutdown
-- (src/engine).
use wallet_engine.Base.{
  ℕ, ◌≤◌, true, false, ◌||◌, ◌&&◌, ◌≡◌, refl, Option, none, some, List, [], ◌∷◌, ◌++◌, arith, ltb,
  ◌==◌, if-cases, is_some, All, Option-cases, inl, inr,
}
use wallet_engine.Base.Words.{u64_max, checked_add}
use wallet_engine.Base.Interface.{Eq}
use wallet_engine.Base.Results.{ok}
use wallet_engine.Send.Record.{RecordCodec}
use wallet_engine.Send.Workflow.Steps.{SendWorkflow}
use wallet_engine.Engine.Snapshot.{HttpRequestId}
use wallet_engine.Engine.State.{State, Waiter, returns, with_revision, allocate_request_id}
use wallet_engine.Engine.State.Sound.{
  IsSound, publish-IsSound, set_send-IsSound, clear_send-IsSound,
}
use wallet_engine.Engine.SendState.{clear_send}
use wallet_engine.Engine.Client.{
  wait_for_change, cancel_send, cancel_active, cancelled_send, show_cancelled, cancelled_workflow,
  shutdown_turn, prepare_shutdown, finish_action, close, stop_all, has_active_work, active_requests,
}
use wallet_engine.Engine.Sections.{Section, allocates, cancels, sends, awaits, shuts, run}
use wallet_engine.Engine.Sections.Kept.{set_workflow-IsSound, send_section-IsSound, KeepsSound}
use wallet_engine.Engine.Sections.Shutdown.{published, next_revision-published, stop_all-revision}

All-snoc :
    (P : Waiter → Type 0) (ws : List Waiter) (w : Waiter) → All P ws → P w → All P (ws ++ (w ∷ []))
All-snoc P [] w h p = (p, tt)
All-snoc P (x ∷ ws) w (first, rest) p = (first, All-snoc P ws w rest p)

module _ {A : Type 0} where
  allocate-IsSound : (s : State A) → IsSound s → IsSound (allocate_request_id s).state
  unfolding allocate_request_id
  allocate-IsSound s i = elim (Option-cases (checked_add s.next_id 1)) [
    | inl exhausted ↦ rw (allocate_request_id, exhausted) i
    | inr (next, is) ↦
        rw (allocate_request_id, is)
          (record {
            bounded = i.bounded;
            waits = i.waits;
            committed = i.committed;
            stopped = i.stopped;
          })
  ]

  wait-IsSound :
      (after channel : ℕ) (s : State A)
      → IsSound s
      → IsSound (wait_for_change after channel s).state
  unfolding wait_for_change
  wait-IsSound after channel s i =
      if-cases KeepsSound (s.closing || s.shutdown) _ _ (λ _. i)
        λ open_.
          if-cases KeepsSound (ltb after s.snapshot.revision) _ _ (λ _. i)
            λ unpublished. record {
              bounded = i.bounded;
              waits = All-snoc _ s.waiters _ i.waits (ground arith);
              committed = i.committed;
              stopped = λ (down : s.shutdown ≡ true). absurd (ground arith);
            }

module _ {A : Type 0} ⦃e : Eq A⦄ (codec : RecordCodec A) where
  shown-IsSound :
      (w : Option (SendWorkflow A)) (s : State A) → IsSound s → IsSound (show_cancelled codec w s)
  unfolding show_cancelled
  shown-IsSound none s i = set_send-IsSound s _ i
  shown-IsSound (some w) s i = set_send-IsSound _ _ (set_workflow-IsSound s (some w) i)

  cancel_active-IsSound :
      (active : Option (ℕ × List HttpRequestId)) (s : State A)
      → IsSound s
      → IsSound (cancel_active codec active s).state
  unfolding cancel_active cancelled_send
  cancel_active-IsSound none s i = i
  cancel_active-IsSound (some (g, ids)) s i =
      publish-IsSound _ ids (shown-IsSound (cancelled_workflow codec s.send_workflow) s i)

  cancel-IsSound : (s : State A) → IsSound s → IsSound (cancel_send codec s).state
  unfolding cancel_send
  cancel-IsSound s i =
      if-cases KeepsSound (is_some s.active_send && s.send_commit_started) _ _ (λ _. i)
        λ _. cancel_active-IsSound s.active_send (clear_send s) (clear_send-IsSound s i)

  closed-IsSound :
      (t : State A)
      → t.snapshot.revision ≤ u64_max
      → t.send_commit_started ≡ false
      → t.active_send ≡ none
      → IsSound (record t { shutdown = true; waiters = [] })
  closed-IsSound t small uncommitted inactive = record {
    bounded = small;
    waits = tt;
    committed = λ (h : t.send_commit_started ≡ true). absurd cc;
    stopped = λ _. (inactive, refl);
  }

  stop_all-inactive :
      (s : State A)
      → ((stop_all codec s).send_commit_started ≡ false) × ((stop_all codec s).active_send ≡ none)
  unfolding stop_all
  stop_all-inactive s = (refl, refl)

  close-published :
      (ids : List HttpRequestId) (t : State A) (revision : ℕ)
      → revision ≤ u64_max
      → (t.send_commit_started ≡ false) × (t.active_send ≡ none)
      → KeepsSound (close codec ids (published t revision))
  unfolding close with_revision
  close-published ids t revision small (uncommitted, inactive) =
      closed-IsSound (with_revision t revision) small uncommitted inactive

  close-returned :
      (ids : List HttpRequestId) (t : State A)
      → t.snapshot.revision ≤ u64_max
      → (t.send_commit_started ≡ false) × (t.active_send ≡ none)
      → KeepsSound (close codec ids (returns t (ok tt)))
  unfolding close
  close-returned ids t small (uncommitted, inactive) = closed-IsSound t small uncommitted inactive

  prepare-IsSound : (s : State A) → IsSound s → IsSound (prepare_shutdown codec s).state
  unfolding prepare_shutdown
  prepare-IsSound s i =
      let same = stop_all-revision codec s in
      let ids = active_requests s in
      let small : (stop_all codec s).snapshot.revision ≤ u64_max = rw same i.bounded in
      if-cases KeepsSound (has_active_work s && s.snapshot.revision == u64_max) _ _ (λ _. i)
        λ passes.
          if-cases (λ o. KeepsSound (close codec ids o)) (has_active_work s) _ _
            (λ work.
              let left : (s.snapshot.revision == u64_max) ≡ false = rw work at passes in
              let left' : ((stop_all codec s).snapshot.revision == u64_max) ≡ false =
                rw same left in
              rw (next_revision-published (stop_all codec s) left' small)
                (close-published ids (stop_all codec s) _ (ground arith) (stop_all-inactive s)))
            (λ _. close-returned ids (stop_all codec s) small (stop_all-inactive s))

  shutdown-IsSound :
      (channel : ℕ) (s : State A) → IsSound s → IsSound (shutdown_turn codec channel s).state
  unfolding shutdown_turn finish_action
  shutdown-IsSound channel s i =
      if-cases KeepsSound s.shutdown _ _ (λ _. i)
        λ up.
          if-cases KeepsSound (is_some s.active_send && s.send_commit_started) _ _
            (λ _. record {
              bounded = i.bounded;
              waits = All-snoc _ s.waiters _ i.waits (omega arith);
              committed = i.committed;
              stopped = λ (down : s.shutdown ≡ true). absurd cc;
            })
            (λ _.
              prepare-IsSound (record s { closing = true })
                (record {
                  bounded = i.bounded;
                  waits = i.waits;
                  committed = i.committed;
                  stopped = i.stopped;
                }))

  -- The sections that track a send that was started (those of send_state.rs), the allocation of a
  -- request identifier, the cancellation of a send, a wait for a change and a turn of the shutdown
  -- keep the state sound: the revision stays a u64, each waiter waits for a revision that is not
  -- published yet, a commit belongs to an active send, and a client that is shut down has neither a
  -- send nor a waiter.
  pub section-IsSound :
      (section : Section A) (s : State A) → IsSound s → IsSound (run codec section s)
  unfolding run
  section-IsSound allocates s i = allocate-IsSound s i
  section-IsSound cancels s i = cancel-IsSound s i
  section-IsSound (sends g section) s i = send_section-IsSound g section s i
  section-IsSound (awaits after channel) s i = wait-IsSound after channel s i
  section-IsSound (shuts channel) s i = shutdown-IsSound channel s i
