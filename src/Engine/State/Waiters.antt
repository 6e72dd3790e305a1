-- ===== src/Engine/State/Waiters.antt =====
-- Who is woken by a published revision (src/engine/state.rs, `next_revision`).
use wallet_engine.Base.{
  ℕ, ◌+◌, ◌<◌, ◌≤◌, Bool, not, ◌≡◌, refl, ap, some, none, List, [], ◌∷◌, map, arith, ltb, filter,
  Bool-cases, inl, inr,
}
use wallet_engine.Base.Words.{checked_add, u64_max}
use wallet_engine.Base.Results.{ok}
use wallet_engine.Engine.State.{State, Waiter, sort_waiters, with_revision, next_revision}

-- The waiter has seen less than the revision.
abbrev pub is_behind : ℕ → Waiter → Bool
is_behind revision w = ltb w.after revision

sort_waiters_lem :
    (revision : ℕ) (ws : List Waiter)
    → ((sort_waiters revision ws).0 ≡ filter (λ w. not (is_behind revision w)) ws)
      × ((sort_waiters revision ws).1 ≡ map (λ w. w.channel) (filter (is_behind revision) ws))
unfolding sort_waiters
sort_waiters_lem revision [] = (refl, refl)
sort_waiters_lem revision (w ∷ ws) =
    let (kept, woken) = sort_waiters_lem revision ws in
    elim (Bool-cases (ltb w.after revision)) [
      | inl behind ↦ rw behind (kept, ap (λ cs. w.channel ∷ cs) woken)
      | inr waiting ↦ rw waiting (ap (λ vs. w ∷ vs) kept, woken)
    ]

-- A revision that is left is published: it is one above the last, exactly the waiters that are behind it
-- are woken, in order, and the others wait on, in order. Without one left nothing changes.
pub next_revision_wakes :
    {A : Type 0} (s : State A)
    → let o = next_revision s in
      let next = s.snapshot.revision + 1 in
      (next ≤ u64_max
        → (o.result ≡ ok tt)
          × (o.state.snapshot.revision ≡ next)
          × (o.woken ≡ map (λ w. w.channel) (filter (is_behind next) s.waiters))
          × (o.state.waiters ≡ filter (λ w. not (is_behind next w)) s.waiters))
      × (u64_max < next → (o.state ≡ s) × (o.woken ≡ []))
unfolding next_revision with_revision
next_revision_wakes s = (
  λ fits.
      let is : checked_add s.snapshot.revision 1 ≡ some (s.snapshot.revision + 1) = ground arith in
      let (kept, woken) = sort_waiters_lem (s.snapshot.revision + 1) s.waiters in
      rw (next_revision, is) (refl, refl, woken, kept),
  λ exhausted.
      let is : checked_add s.snapshot.revision 1 ≡ none = ground arith in
      rw (next_revision, is) (refl, refl),
)
