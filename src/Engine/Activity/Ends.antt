-- ===== src/Engine/Activity/Ends.antt =====
-- Pagination ends (src/engine/activity.rs, `apply_activity_page`).
use wallet_engine.Base.{
  ℕ, suc, ◌+◌, ◌≤◌, ◌<◌, ◌≡◌, refl, arith, true, false, Option, none, some, List, [], ◌∷◌,
  if◌then◌else◌, if-cases, Bool-cases, inl, inr, ◌⊎◌,
}
use wallet_engine.Engine.State.{State, ActivityPageCursor}
use wallet_engine.Engine.Activity.{
  ActivityHost, ActivityPage, advances, sync_activity_snapshot, apply_activity_page,
}

abbrev cursor_bound : Option ActivityPageCursor → ℕ
cursor_bound none = 1
cursor_bound (some c) = c.logical_time + 1

one-le-bound : (c : Option ActivityPageCursor) → 1 ≤ cursor_bound c
one-le-bound none = omega arith
one-le-bound (some c) = omega arith

-- One page for each older logical time, and the page that ends the pagination.
abbrev pub page_bound : {A : Type 0} → State A → ℕ
page_bound s = cursor_bound s.activity_cursor

advances-bound :
    (previous next : Option ActivityPageCursor)
    → advances previous next ≡ true
    → cursor_bound next < cursor_bound previous
unfolding advances
advances-bound none next h = absurd cc
advances-bound (some p) none h = absurd cc
advances-bound (some p) (some n) h = ground arith

module _ {A : Type 0} (host : ActivityHost A) where
  -- How many of the offered pages are applied before `activity_has_more` is false.
  unfoldable pub pages_applied : List (ActivityPage A) → State A → ℕ
  pages_applied [] s = 0
  pages_applied (page ∷ pages) s =
      let rest = pages_applied pages (apply_activity_page host page s).0 in
      if s.activity_has_more then suc rest else 0

  ended :
      (pages : List (ActivityPage A)) (s : State A)
      → s.activity_has_more ≡ false
      → pages_applied pages s ≡ 0
  unfolding pages_applied
  ended [] s h = refl
  ended (page ∷ pages) s h = rw h refl

  page-bound :
      (page : ActivityPage A) (s : State A)
      → ((apply_activity_page host page s).0.activity_has_more ≡ false)
        ⊎ (page_bound (apply_activity_page host page s).0 < page_bound s)
  unfolding apply_activity_page sync_activity_snapshot
  page-bound page s = elim (Bool-cases (advances s.activity_cursor page.cursor)) [
    | inl older ↦ rw older (inr (advances-bound s.activity_cursor page.cursor older))
    | inr not_older ↦ rw not_older (inl refl)
  ]

  -- Whatever pages a provider offers, no more of them are applied than the logical time of the cursor
  -- allows: pagination ends.
  pub pages_applied-bounded :
      (pages : List (ActivityPage A)) (s : State A) → pages_applied pages s ≤ page_bound s
  unfolding pages_applied
  pages_applied-bounded [] s = omega arith
  pages_applied-bounded (page ∷ pages) s =
      if-cases (λ n. n ≤ page_bound s) s.activity_has_more _ _
        (λ more. elim (page-bound page s) [
          | inl last ↦ omega (
            arith,
            ended pages (apply_activity_page host page s).0 last,
            one-le-bound s.activity_cursor,
          )
          | inr less ↦
              omega (arith, pages_applied-bounded pages (apply_activity_page host page s).0)
        ])
        (λ none_left. omega arith)
