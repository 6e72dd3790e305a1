-- ===== src/Domain/Send/Intent.antt =====
-- The value of a message batch (src/domain/send.rs, `exact_value_total`).
use wallet_engine.Base.{
  ℕ, ◌+◌, ◌≤◌, ◌≡◌, ◌↔◌, ◌⊎◌, refl, false, some, List, [], ◌∷◌, map, arith, length, inl, inr,
}
use wallet_engine.Base.Results.{ok}
use wallet_engine.Domain.Send.{
  SendMessage, SendAmount, SendIntent, any_all, total_from, exact_value_total,
}

abbrev pub sum : List ℕ → ℕ
sum [] = 0
sum (n ∷ ns) = n + sum ns

Amount-cases : (a : SendAmount) → (a ≡ SendAmount.all) ⊎ ((n : ℕ) × (a ≡ SendAmount.exact n))
Amount-cases SendAmount.all = inl refl
Amount-cases (SendAmount.exact n) = inr (n, refl)

module _ {A : Type 0} where
  -- Every message of the batch names an exact amount, and these are the amounts.
  abbrev pub Amounts : List (SendMessage A) → List ℕ → Type 0
  Amounts ms ns = map (λ m. m.amount) ms ≡ map SendAmount.exact ns

  total_from-some :
      (t n : ℕ) (ms : List (SendMessage A))
      → total_from t ms ≡ some n
      → (ns : List ℕ) × Amounts ms ns × (t + sum ns ≡ n)
  unfolding total_from
  total_from-some t n [] h = ([], refl, ground arith)
  total_from-some t n (m ∷ ms) h = elim (Amount-cases m.amount) [
    | inl e ↦ absurd (ground arith)
    | inr (k, e) ↦
        let (ns, a, v) = total_from-some (t + k) n ms (ground arith) in (k ∷ ns, cc, omega arith)
  ]

  total_from-Amounts :
      (t : ℕ) (ms : List (SendMessage A)) (ns : List ℕ)
      → Amounts ms ns
      → (total_from t ms ≡ some (t + sum ns)) × (any_all ms ≡ false)
  unfolding total_from any_all
  total_from-Amounts t [] [] h = (ground arith, refl)
  total_from-Amounts t [] (n ∷ ns) h = cc
  total_from-Amounts t (m ∷ ms) [] h = cc
  total_from-Amounts t (m ∷ ms) (n ∷ ns) h =
      let e : m.amount ≡ SendAmount.exact n = ground arith in
      let rest : Amounts ms ns = ground arith in
      let (v, w) = total_from-Amounts (t + n) ms ns rest in rw (e, v, w) (ground arith, refl)

  -- A batch has a total exactly when it has 1 to 255 messages that all name exact amounts; the total
  -- is then their sum.
  exact_value_total-some :
      (i : SendIntent A) (n : ℕ)
      → (exact_value_total i ≡ ok (some n)) ↔ (
          (1 ≤ length i.messages)
          × (length i.messages ≤ 255)
          × ((ns : List ℕ) × Amounts i.messages ns × (sum ns ≡ n)))
  unfolding exact_value_total
  exact_value_total-some i n = (
    λ h.
        let v : total_from 0 i.messages ≡ some n = ground arith in
        let (ns, a, k) = total_from-some 0 n i.messages v in
        (ground arith, ground arith, (ns, a, omega arith)),
    λ h. let (v, w) = total_from-Amounts 0 i.messages h.2.0 h.2.1 in ground arith,
  )
