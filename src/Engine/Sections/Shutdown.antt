-- ===== src/Engine/Sections/Shutdown.antt =====
-- Cancellation and shutdown (src/engine/client.rs, `cancel_send` of src/engine/send.rs).
use wallet_engine.Base.{
  ℕ, ◌+◌, ◌≤◌, true, false, ◌&&◌, ◌≡◌, refl, ap, ◌∙◌, ◌↔◌, Option, none, some, List, [], arith,
  ◌==◌, if◌then◌else◌, if-cases, is_some, inl, inr, ◌⊎◌,
}
use wallet_engine.Base.Words.{u64_max, checked_add}
use wallet_engine.Base.Interface.{Eq}
use wallet_engine.Base.Results.{ok, err}
use wallet_engine.Send.Record.{RecordCodec}
use wallet_engine.Send.Workflow.Steps.{SendWorkflow}
use wallet_engine.Engine.Snapshot.{HttpRequestId, WalletSnapshot}
use wallet_engine.Engine.State.{
  State, Outcome, Waiter, returns, identifier_exhausted, sort_waiters, with_revision, next_revision,
}
use wallet_engine.Engine.State.Sound.{IsSound}
use wallet_engine.Engine.SendState.{set_send}
use wallet_engine.Engine.Sections.Active.{
  IsIn, IsIdle, IsActiveRequest, has_active_work-IsIdle, IsIdle-has_active_work,
  active_requests-IsActiveRequest,
}
use wallet_engine.Engine.Client.{
  cancelled_send, show_cancelled, cancelled_workflow, prepare_shutdown, close, stop_all, stop_send,
  stop_resources, stop_refresh, stop_pagination, stop_nft_refresh, stop_nft_pagination,
  has_active_work, active_requests,
}

module _ {A : Type 0} where
  SameRevision : WalletSnapshot A → WalletSnapshot A → Type 0
  SameRevision v w = w.revision ≡ v.revision

  stopped-revision :
      (s : State A) (v : WalletSnapshot A)
      → (stop_nft_pagination s (stop_nft_refresh s (stop_pagination s (stop_refresh s v)))).revision
        ≡ v.revision
  unfolding stop_refresh stop_pagination stop_nft_refresh stop_nft_pagination SameRevision
  stopped-revision s v =
      if-cases (SameRevision v) (is_some s.active_nft_pagination) _ _ (λ _. up3) (λ _. up3)
    where
      up1 : (stop_refresh s v).revision ≡ v.revision
      up1 = if-cases (SameRevision v) (is_some s.active_refresh) _ _ (λ _. refl) (λ _. refl)

      up2 : (stop_pagination s (stop_refresh s v)).revision ≡ v.revision
      up2 = if-cases (SameRevision v) (is_some s.active_pagination) _ _ (λ _. up1) (λ _. up1)

      up3 : (stop_nft_refresh s (stop_pagination s (stop_refresh s v))).revision ≡ v.revision
      up3 = if-cases (SameRevision v) (is_some s.active_nft_refresh) _ _ (λ _. up2) (λ _. up2)

  abbrev pub published : State A → ℕ → Outcome A (Unit {0})
  published s revision = record {
    state = with_revision s revision;
    woken = (sort_waiters revision s.waiters).1;
    result = ok tt;
  }

  -- A revision that is left is published.
  pub next_revision-published :
      (s : State A)
      → (s.snapshot.revision == u64_max) ≡ false
      → s.snapshot.revision ≤ u64_max
      → next_revision s ≡ published s (s.snapshot.revision + 1)
  unfolding next_revision
  next_revision-published s other small =
      let is : checked_add s.snapshot.revision 1 ≡ some (s.snapshot.revision + 1) = ground arith in
      rw (next_revision, is) refl

module _ {A : Type 0} ⦃e : Eq A⦄ (codec : RecordCodec A) where
  shown-revision :
      (w : Option (SendWorkflow A)) (s : State A)
      → (show_cancelled codec w s).snapshot.revision ≡ s.snapshot.revision
  unfolding show_cancelled set_send
  shown-revision none s = refl
  shown-revision (some w) s = refl

  stop_send-revision : (s : State A) → (stop_send codec s).snapshot.revision ≡ s.snapshot.revision
  unfolding stop_send cancelled_send
  stop_send-revision s =
      if-cases (λ (t : State A). t.snapshot.revision ≡ s.snapshot.revision) (is_some s.active_send)
        _ _ (λ _. shown-revision (cancelled_workflow codec s.send_workflow) s) (λ _. refl)

  pub stop_all-revision : (s : State A) → (stop_all codec s).snapshot.revision ≡ s.snapshot.revision
  unfolding stop_all stop_resources
  stop_all-revision s = stop_send-revision (stop_resources codec s) ∙ stopped-revision s s.snapshot

  -- The result of a shutdown whose last revision succeeded.
  IsClosed : State A → Outcome A (List HttpRequestId × List Waiter) → Type 0
  IsClosed s o =
      (ids : List HttpRequestId) × (left : List Waiter) × (o.result ≡ ok (ids, left))
      × ((id : HttpRequestId) → IsIn id ids ↔ IsActiveRequest s id)
      × IsIdle o.state
      × (o.state.send_commit_started ≡ false)
      × (o.state.shutdown ≡ true)
      × (o.state.waiters ≡ [])
      × ((IsIdle s × (o.state.snapshot.revision ≡ s.snapshot.revision))
          ⊎ ((¬ IsIdle s) × (o.state.snapshot.revision ≡ s.snapshot.revision + 1)))

  IsAtomic : State A → Outcome A (List HttpRequestId × List Waiter) → Type 0
  unfolding IsClosed
  IsAtomic s o =
      ((o.result ≡ err identifier_exhausted)
        × (o.state ≡ s)
        × (o.woken ≡ [])
        × (s.snapshot.revision ≡ u64_max)
        × (¬ IsIdle s))
      ⊎ IsClosed s o

  -- A client with an active operation is not idle.
  working : (s : State A) → has_active_work s ≡ true → ¬ IsIdle s
  working s work idle = let none_active = IsIdle-has_active_work s idle in absurd cc

  close-published :
      (s : State A)
      → ¬ IsIdle s
      → IsClosed s (
          close codec
            (active_requests s)
            (published (stop_all codec s) ((stop_all codec s).snapshot.revision + 1)))
  unfolding IsClosed close with_revision stop_all
  close-published s busy = (
    active_requests s,
    _,
    refl,
    active_requests-IsActiveRequest s,
    (refl, refl, refl, refl, refl, refl, refl),
    refl,
    refl,
    refl,
    inr (busy, ap (λ n. n + 1) (stop_all-revision s)),
  )

  close-returns :
      (s : State A)
      → IsIdle s
      → IsClosed s (close codec (active_requests s) (returns (stop_all codec s) (ok tt)))
  unfolding IsClosed close stop_all
  close-returns s idle = (
    active_requests s,
    _,
    refl,
    active_requests-IsActiveRequest s,
    (refl, refl, refl, refl, refl, refl, refl),
    refl,
    refl,
    refl,
    inl (idle, stop_all-revision s),
  )

  closes :
      (s : State A)
      → IsSound s
      → (has_active_work s && s.snapshot.revision == u64_max) ≡ false
      → IsClosed s (
          close codec (active_requests s) (
            if has_active_work s
            then next_revision (stop_all codec s)
            else returns (stop_all codec s) (ok tt)))
  closes s i passes =
      let same = stop_all-revision s in
      if-cases (λ o. IsClosed s (close codec (active_requests s) o)) (has_active_work s) _ _
        (λ work.
          let left : (s.snapshot.revision == u64_max) ≡ false = rw work at passes in
          rw (next_revision-published (stop_all codec s) (rw same left) (rw same i.bounded))
            (close-published s (working s work)))
        (λ none_active. close-returns s (has_active_work-IsIdle s none_active))

  exhausted :
      (s : State A)
      → (has_active_work s && s.snapshot.revision == u64_max) ≡ true
      → (s.snapshot.revision ≡ u64_max) × (has_active_work s ≡ true)
  exhausted s h = ground arith

  -- From a sound state, the step of shutdown that stops all operations, `prepare_shutdown`, either
  -- fails because an operation is active and no revision is left, and then it changes nothing; or no
  -- operation is active after it, the requests that it hands over for cancellation are exactly those
  -- that an active operation waits for, the client is shut down and keeps no waiter, and the revision
  -- grows by one if an operation was active and stays if none was.
  pub prepare_shutdown_atomic :
      (s : State A)
      → IsSound s
      → let o = prepare_shutdown codec s in
        ((o.result ≡ err identifier_exhausted)
          × (o.state ≡ s)
          × (o.woken ≡ [])
          × (s.snapshot.revision ≡ u64_max)
          × (¬ IsIdle s))
        ⊎ ((ids : List HttpRequestId) × (left : List Waiter) × (o.result ≡ ok (ids, left))
            × ((id : HttpRequestId) → IsIn id ids ↔ IsActiveRequest s id)
            × IsIdle o.state
            × (o.state.send_commit_started ≡ false)
            × (o.state.shutdown ≡ true)
            × (o.state.waiters ≡ [])
            × ((IsIdle s × (o.state.snapshot.revision ≡ s.snapshot.revision))
                ⊎ ((¬ IsIdle s) × (o.state.snapshot.revision ≡ s.snapshot.revision + 1))))
  unfolding prepare_shutdown IsClosed IsAtomic
  prepare_shutdown_atomic s i =
      if-cases (IsAtomic s) (has_active_work s && s.snapshot.revision == u64_max) _ _
        (λ due. let (last, work) = exhausted s due in inl (refl, refl, refl, last, working s work))
        (λ passes. inr (closes s i passes))
