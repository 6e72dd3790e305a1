-- ===== src/Engine/Comment/Whole.antt =====
-- A whole decryption, from its first section on (src/engine/encrypted_comment.rs).
use wallet_engine.Base.{
  ℕ, ◌≡◌, refl, false, ◌||◌, Option, none, some, [], ◌⊎◌, inl, inr, if-cases, is_some,
}
use wallet_engine.Base.Bytes.{Bytes}
use wallet_engine.Base.Words.{checked_add}
use wallet_engine.Base.Results.{Result, ok, err, ok_or}
use wallet_engine.Types.Texts.{Text}
use wallet_engine.Types.Decimal.{BigUintText}
use wallet_engine.Engine.State.{
  State, Outcome, WalletClientError, OperationFamily, is_current, returns, and_then, try_,
  ensure_running, local_signing_unavailable, identifier_exhausted,
}
use wallet_engine.Engine.Comment.{World, CommentHost, EncryptedCommentError}
use wallet_engine.Engine.Comment.Decryption.{
  start_decryption, with_body, decrypt_comment, continue_decryption,
}
use wallet_engine.Engine.Comment.Released.{continue_decryption-IsFree}

ok_or-some :
    {X : Type 0} (o : Option X) (e : WalletClientError) (v : X) → ok_or o e ≡ ok v → o ≡ some v
ok_or-some none e v is = absurd cc
ok_or-some (some x) e v is = cc

idle :
    {X Y : Type 0} (a : Option X) (b : Option Y)
    → (is_some a || is_some b) ≡ false
    → (a ≡ none) × (b ≡ none)
idle none none h = (refl, refl)
idle none (some b) h = absurd cc
idle (some a) b h = absurd cc

module _ {A : Type 0} where
  -- The state whose resolution slot the generation holds; nothing else differs.
  abbrev pub with_slot : ℕ → State A → State A
  with_slot generation s = record s {
    resolution_generation = generation;
    active_resolution = some (generation, []);
  }

  -- The first section is refused, or it takes the free slot for the next generation.
  data Starts (s : State A) : Outcome A ℕ → Type 0 where
    refused : {e : WalletClientError} → Starts s (returns s (err e))
    takes :
        {generation : ℕ}
        → checked_add s.resolution_generation 1 ≡ some generation
        → (s.active_send ≡ none) × (s.active_resolution ≡ none)
        → Starts s (returns (with_slot generation s) (ok generation))

  try-Starts :
      {X : Type 0} (s : State A) (r : Result WalletClientError X) (then : X → Outcome A ℕ)
      → ((v : X) → r ≡ ok v → Starts s (then v))
      → Starts s (try_ s r then)
  unfolding try_
  try-Starts s (err e) then h = refused
  try-Starts s (ok v) then h = h v refl

  module _ (big : BigUintText) (host : CommentHost A) (world : World A) where
    start-Starts : (s : State A) → Starts s (start_decryption big host world s)
    unfolding start_decryption
    start-Starts s = try-Starts s (ensure_running s) _ λ _ _.
        try-Starts s (ok_or s.config.local_secret_ref local_signing_unavailable) _ λ _ _.
          if-cases (Starts s) (is_some s.active_send || is_some s.active_resolution) _ _
            (λ busy. refused)
            (λ free.
              try-Starts s (ok_or (checked_add s.resolution_generation 1) identifier_exhausted) _
                λ generation is.
                  takes
                    (ok_or-some (checked_add s.resolution_generation 1) identifier_exhausted
                      generation is)
                    (idle s.active_send s.active_resolution free))

    Ends : A → Bytes → State A → Outcome A ℕ → Outcome A Text → Type 0
    Ends sender body s start o =
        ((o.state ≡ s) × (e : WalletClientError) × (o.result ≡ err e))
        ⊎ ((generation : ℕ) × (checked_add s.resolution_generation 1 ≡ some generation)
            × (s.active_send ≡ none)
            × (s.active_resolution ≡ none)
            × (start ≡ returns (with_slot generation s) (ok generation))
            × (o.state
                ≡ (continue_decryption big host world generation s.config sender body
                    (with_slot generation s)).state)
            × (is_current o.state OperationFamily.resolution generation ≡ false))

    continued :
        (sender : A) (body : Bytes) (s : State A) (start : Outcome A ℕ)
        → Starts s start
        → Ends sender body s start (
            and_then start (λ t generation.
              continue_decryption big host world generation t.config sender body t))
    unfolding and_then Ends
    continued sender body s _ refused = inl (refl, _, refl)
    continued sender body s _ (takes {generation} is (send_free, slot_free)) = inr (
      generation,
      is,
      send_free,
      slot_free,
      refl,
      refl,
      continue_decryption-IsFree big host world generation s.config sender body
          (with_slot generation s),
    )

    with_body-Ends :
        (sender : A) (body : Bytes) (valid : Result EncryptedCommentError (Unit {0})) (s : State A)
        → Ends sender body s
            (start_decryption big host world s)
            (with_body big host world sender body valid s)
    unfolding with_body Ends
    with_body-Ends sender body (err e) s = inl (refl, _, refl)
    with_body-Ends sender body (ok valid) s =
        continued sender body s (start_decryption big host world s) (start-Starts s)

    -- A decryption fails and changes nothing, or its first section finds no send and no resolution
    -- active and takes the slot, which the state then records, for the next generation; the rest of
    -- the decryption runs from there and ends with a slot that this generation does not hold,
    -- whatever its host answers and other operations do meanwhile.
    pub decrypt_comment-Ends :
        (sender : A) (body : Bytes) (s : State A)
        → let o = decrypt_comment big host world sender body s in
          ((o.state ≡ s) × (e : WalletClientError) × (o.result ≡ err e))
          ⊎ ((generation : ℕ) × (checked_add s.resolution_generation 1 ≡ some generation)
              × (s.active_send ≡ none)
              × (s.active_resolution ≡ none)
              × (start_decryption big host world s
                  ≡ returns (with_slot generation s) (ok generation))
              × (o.state
                  ≡ (continue_decryption big host world generation s.config sender body
                      (with_slot generation s)).state)
              × (is_current o.state OperationFamily.resolution generation ≡ false))
    unfolding decrypt_comment Ends
    decrypt_comment-Ends sender body s = with_body-Ends sender body (host.validate body) s
