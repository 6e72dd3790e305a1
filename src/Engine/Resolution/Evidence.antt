-- ===== src/Engine/Resolution/Evidence.antt =====
-- The evidence behind each classification of a pending send (src/engine/resolution.rs).
use wallet_engine.Base.{
  ℕ, ◌+◌, ◌<◌, ◌≤◌, Bool, true, false, ◌&&◌, ◌≡◌, refl, Option, none, some, arith, ltb, ◌⊎◌, inl,
  inr, if-cases,
}
use wallet_engine.Base.Words.{u64_max}
use wallet_engine.Base.Holds.{Holds, holds, Holds->>=, Holds-of-ok}
use wallet_engine.Base.Results.{Result, ok, err}
use wallet_engine.Domain.Send.{in_mempool, awaiting_window}
use wallet_engine.Send.Record.{
  SignedMessageKind, external, internal, SendResolution, confirmed, replaced,
  sequence_number_consumed, expired, still_pending,
}
use wallet_engine.Engine.Snapshot.{DomainError}
use wallet_engine.Engine.Resolution.{
  ExecutedMessage, ResolutionAnswers, resolution_window_expired, lacks_capability,
  pending_observation, confirmation, by_window, by_recheck, classify_internal, classify_seqno,
  classify_executed, classify,
}

-- The provider showed that the message is not among its pending ones, or that it cannot tell.
unfoldable pub IsNotPending : Result DomainError Bool → Type 0
IsNotPending answer =
    (answer ≡ ok false)
    ⊎ ((error : DomainError) × (answer ≡ err error)
        × (lacks_capability error.provider_status ≡ true))

-- What the provider must have answered for a classification.
unfoldable pub IsSupported :
    (provider_time margin_seconds : ℕ)
    → ResolutionAnswers
    → SignedMessageKind
    → (seqno valid_until : ℕ) → SendResolution
    → Type 0
unfolding IsNotPending
IsSupported time margin a kind seqno valid_until (confirmed hash lt) =
    let message : ExecutedMessage = record { transaction_hash = hash; transaction_lt = lt } in
    (kind ≡ external)
    × ((a.executed ≡ ok (some message))
        ⊎ ((a.executed ≡ ok none) × (a.executed_recheck ≡ ok (some message))))
IsSupported time margin a kind seqno valid_until replaced =
    (kind ≡ external)
    × (a.executed ≡ ok none)
    × (a.executed_recheck ≡ ok none)
    × ((n : ℕ) × (a.wallet_state ≡ ok n) × (seqno < n))
IsSupported time margin a kind seqno valid_until sequence_number_consumed =
    (kind ≡ internal) × ((n : ℕ) × (a.wallet_state ≡ ok n) × (seqno < n))
IsSupported time margin a kind seqno valid_until expired =
    (valid_until + margin < time)
    × ((n : ℕ) × (a.wallet_state ≡ ok n) × (n ≤ seqno))
    × ((kind ≡ internal) ⊎ ((kind ≡ external) × (a.executed ≡ ok none) × IsNotPending a.pending))
IsSupported time margin a kind seqno valid_until (still_pending in_mempool) =
    (kind ≡ external) × (a.executed ≡ ok none) × (a.pending ≡ ok true)
IsSupported time margin a kind seqno valid_until (still_pending awaiting_window) =
    (n : ℕ) × (a.wallet_state ≡ ok n) × (n ≤ seqno)

module _ (time margin : ℕ) (a : ResolutionAnswers) (seqno valid_until : ℕ) where
  abbrev Supported : SignedMessageKind → SendResolution → Type 0
  Supported kind = IsSupported time margin a kind seqno valid_until

  window-passed :
      time ≤ u64_max
      → resolution_window_expired time valid_until margin ≡ true
      → valid_until + margin < time
  unfolding resolution_window_expired
  window-passed small h = ground arith

  by_window-IsSupported :
      (kind : SignedMessageKind) (observed : Bool) (n : ℕ)
      → time ≤ u64_max
      → a.wallet_state ≡ ok n
      → n ≤ seqno
      → (observed ≡ true
          → (kind ≡ internal)
            ⊎ ((kind ≡ external) × (a.executed ≡ ok none) × IsNotPending a.pending))
      → Supported kind (by_window observed time valid_until margin)
  unfolding by_window IsSupported
  by_window-IsSupported kind observed n small read low absent =
      if-cases (Supported kind) (observed && resolution_window_expired time valid_until margin) _ _
        (λ both. (window-passed small (ground arith), (n, read, low), absent (ground arith)))
        (λ _. (n, read, low))

  recheck-IsSupported :
      (found : Option ExecutedMessage) (n : ℕ)
      → a.executed ≡ ok none
      → a.executed_recheck ≡ ok found
      → a.wallet_state ≡ ok n
      → seqno < n
      → Supported external (by_recheck found)
  unfolding by_recheck confirmation IsSupported
  recheck-IsSupported (some m) n missing again read above = (refl, inr (missing, again))
  recheck-IsSupported none n missing again read above = (refl, missing, again, (n, read, above))

  seqno-IsSupported :
      (observed : Bool)
      → time ≤ u64_max
      → a.executed ≡ ok none
      → (observed ≡ true → IsNotPending a.pending)
      → Holds (Supported external) (classify_seqno time margin a observed seqno valid_until)
  unfolding classify_seqno
  seqno-IsSupported observed small missing absent = Holds->>= _ a.wallet_state _ λ n read.
      if-cases (Holds (Supported external)) (ltb seqno n) _ _
        (λ advanced.
          Holds->>= _ a.executed_recheck _
            λ found again. holds (recheck-IsSupported found n missing again read (ground arith)))
        (λ behind. holds (
          by_window-IsSupported external observed n small read (ground arith)
            (λ seen. inr (refl, missing, absent seen))))

  -- What was seen of the pending messages, by the answer.
  pending-seen :
      (answer : Result DomainError Bool)
      → a.pending ≡ answer
      → ((pending_observation answer).0 ≡ true → a.pending ≡ ok true)
        × ((pending_observation answer).0 ≡ false
            → (pending_observation answer).1 ≡ true
            → IsNotPending a.pending)
  unfolding pending_observation IsNotPending
  pending-seen (ok true) is = (λ _. is, λ h. absurd cc)
  pending-seen (ok false) is = (λ h. absurd cc, λ _ _. inl is)
  pending-seen (err error) is = (λ h. absurd cc, λ _ lacks. inr (error, is, lacks))

  executed-IsSupported :
      (found : Option ExecutedMessage)
      → time ≤ u64_max
      → a.executed ≡ ok found
      → Holds (Supported external) (classify_executed time margin a found seqno valid_until)
  unfolding classify_executed confirmation IsSupported
  executed-IsSupported (some m) small found = holds (refl, inl found)
  executed-IsSupported none small missing =
      let (seen, absent) = pending-seen a.pending refl in
      if-cases (Holds (Supported external)) (pending_observation a.pending).0 _ _
        (λ is_pending. holds (refl, missing, seen is_pending))
        (λ not_pending.
          seqno-IsSupported (pending_observation a.pending).1 small missing (absent not_pending))

  internal-IsSupported :
      time ≤ u64_max
      → Holds (Supported internal) (classify_internal time margin a seqno valid_until)
  unfolding classify_internal IsSupported
  internal-IsSupported small = Holds->>= _ a.wallet_state _ λ n read. holds (
      if-cases (Supported internal) (ltb seqno n) _ _ (λ advanced. (refl, (n, read, ground arith)))
        (λ behind. by_window-IsSupported internal true n small read (ground arith) (λ _. inl refl)))

  -- A pending send is classified only as the provider's answers support: a confirmation names the
  -- transaction that was found; a replacement needs an advanced sequence number and two lookups that
  -- found no transaction; an expiry needs a sequence number that did not advance, a validity window and
  -- margin that have passed, and, for an external message, that it was found neither among the executed nor
  -- among the pending ones.
  pub classify-IsSupported :
      (kind : SignedMessageKind) (resolution : SendResolution)
      → time ≤ u64_max
      → classify time margin a kind seqno valid_until ≡ ok resolution
      → IsSupported time margin a kind seqno valid_until resolution
  unfolding classify
  classify-IsSupported internal resolution small h =
      Holds-of-ok (Supported internal) _ resolution (internal-IsSupported small) h
  classify-IsSupported external resolution small h =
      Holds-of-ok (Supported external) _ resolution
        (Holds->>= _ a.executed _ λ found read. executed-IsSupported found small read) h
