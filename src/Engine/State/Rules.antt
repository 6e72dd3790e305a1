-- ===== src/Engine/State/Rules.antt =====
-- What a property of states needs along the steps of a section (src/engine/state.rs).
use wallet_engine.Base.{ℕ, none, some, Option-cases, inl, inr}
use wallet_engine.Base.Words.{checked_add}
use wallet_engine.Base.Results.{Result, ok, err, Result-cases}
use wallet_engine.Engine.State.{
  State, Outcome, WalletClientError, and_then, try_, identifier_exhausted, returns, with_revision,
  next_revision,
}

-- The state that a section leaves has the property.
pub record Leaves {A X : Type 0} (P : State A → Type 0) (o : Outcome A X) : Type 0 where
  pub left : P o.state

module _ {A : Type 0} (P : State A → Type 0) where
  pub and_then-Leaves :
      {X Y : Type 0} (o : Outcome A X) (next : State A → X → Outcome A Y)
      → Leaves P o
      → ((v : X) → P o.state → Leaves P (next o.state v))
      → Leaves P (and_then o next)
  unfolding and_then
  and_then-Leaves o next kept later = elim (Result-cases o.result) [
    | inl (v, is) ↦ record { left = rw (and_then, is) ((later v kept.left).left) }
    | inr (x, is) ↦ record { left = rw (and_then, is) (kept.left) }
  ]

  pub try-Leaves :
      {X Y : Type 0} (s : State A) (r : Result WalletClientError X) (next : X → Outcome A Y)
      → P s
      → ((v : X) → Leaves P (next v))
      → Leaves P (try_ s r next)
  unfolding try_
  try-Leaves s (ok v) next kept later = later v
  try-Leaves s (err x) next kept later = record { left = kept }

  pub returns-Leaves :
      {X : Type 0} (s : State A) (r : Result WalletClientError X) → P s → Leaves P (returns s r)
  returns-Leaves s r kept = record { left = kept }

  -- The step that counts a generation or an identifier.
  pub count-Leaves :
      {X : Type 0} (n : ℕ) (failed : Outcome A X) (counted : ℕ → Outcome A X)
      → Leaves P failed
      → ((m : ℕ) → Leaves P (counted m))
      → Leaves P (elim (checked_add n 1) [ none ↦ failed | some m ↦ counted m ])
  count-Leaves n failed counted kept later = elim (Option-cases (checked_add n 1)) [
    | inl absent ↦ rw absent kept
    | inr (m, is) ↦ rw is (later m)
  ]

  pub next_revision-Leaves :
      (s : State A)
      → P s
      → ((revision : ℕ) → P (with_revision s revision))
      → Leaves P (next_revision s)
  unfolding next_revision
  next_revision-Leaves s kept later =
      count-Leaves s.snapshot.revision (returns s (err identifier_exhausted)) _
        (returns-Leaves s (err identifier_exhausted) kept) (λ n. record { left = later n })
