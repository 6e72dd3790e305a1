-- ===== src/Engine/State/Sound.antt =====
-- What the sections of a send, of waiting and of shutdown keep of the state (src/engine/state.rs).
use wallet_engine.Base.{
  ℕ, ◌≤◌, true, ◌≡◌, refl, none, some, List, [], ◌∷◌, arith, ltb, is_some, All, Bool-cases,
  Option-cases, inl, inr,
}
use wallet_engine.Base.Words.{checked_add, u64_max}
use wallet_engine.Domain.Send.{SendSnapshot}
use wallet_engine.Engine.State.{State, Waiter, sort_waiters, with_revision, next_revision}
use wallet_engine.Engine.SendState.{publish, set_send, clear_send}

pub record IsSound {A : Type 0} (s : State A) : Type 0 where
  -- The revision is a `u64`.
  pub bounded : s.snapshot.revision ≤ u64_max
  -- A waiter waits for a revision that is not published.
  pub waits : All (λ w. s.snapshot.revision ≤ w.after) s.waiters
  -- A commit belongs to an active send.
  pub committed : s.send_commit_started ≡ true → is_some s.active_send ≡ true
  -- A client that is shut down has no send and no waiter.
  pub stopped : s.shutdown ≡ true → (s.active_send ≡ none) × (s.waiters ≡ [])

pub sort_waiters-waits :
    (revision : ℕ) (ws : List Waiter) → All (λ w. revision ≤ w.after) (sort_waiters revision ws).0
unfolding sort_waiters
sort_waiters-waits revision [] = tt
sort_waiters-waits revision (w ∷ ws) = elim (Bool-cases (ltb w.after revision)) [
  | inl older ↦ rw older (sort_waiters-waits revision ws)
  | inr waiting ↦ rw waiting (ground arith, sort_waiters-waits revision ws)
]

pub sort_waiters-nil : (revision : ℕ) → (sort_waiters revision []).0 ≡ []
unfolding sort_waiters
sort_waiters-nil revision = refl

pub checked_add_small : (a c : ℕ) → checked_add a 1 ≡ some c → (c ≤ u64_max)
checked_add_small a c h = ground arith

module _ {A : Type 0} where
  with_revision-IsSound :
      (s : State A) (revision : ℕ)
      → revision ≤ u64_max
      → IsSound s
      → IsSound (with_revision s revision)
  unfolding with_revision
  with_revision-IsSound s revision small i = record {
    bounded = small;
    waits = sort_waiters-waits revision s.waiters;
    committed = i.committed;
    stopped = λ h.
        let (inactive, quiet) = i.stopped h in
        (inactive, rw (quiet, sort_waiters-nil revision) refl);
  }

  pub next_revision-IsSound : (s : State A) → IsSound s → IsSound (next_revision s).state
  unfolding next_revision
  next_revision-IsSound s i = elim (Option-cases (checked_add s.snapshot.revision 1)) [
    | inl exhausted ↦ rw (next_revision, exhausted) i
    | inr (revision, is) ↦
        rw (next_revision, is)
          (with_revision-IsSound s revision (checked_add_small s.snapshot.revision revision is) i)
  ]

  pub publish-IsSound : {X : Type 0} (s : State A) (x : X) → IsSound s → IsSound (publish s x).state
  unfolding publish
  publish-IsSound s x i = next_revision-IsSound s i

  pub set_send-IsSound : (s : State A) (v : SendSnapshot) → IsSound s → IsSound (set_send s v)
  unfolding set_send
  set_send-IsSound s v i = record {
    bounded = i.bounded;
    waits = i.waits;
    committed = i.committed;
    stopped = i.stopped;
  }

  pub clear_send-IsSound : (s : State A) → IsSound s → IsSound (clear_send s)
  unfolding clear_send
  clear_send-IsSound s i = record {
    bounded = i.bounded;
    waits = i.waits;
    committed = λ h. absurd cc;
    stopped = λ h. (refl, (i.stopped h).1);
  }
