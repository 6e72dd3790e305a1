-- ===== src/Engine/Comment/Released.antt =====
-- A decryption lets go of its slot, whatever happens meanwhile (src/engine/encrypted_comment.rs).
use wallet_engine.Base.{
  ℕ, ◌≡◌, Bool, false, not, [], ◌∷◌, if◌then◌else◌, ◌&&◌, Bool-cases, inl, inr, if-cases,
}
use wallet_engine.Base.Bytes.{Bytes, same_bytes}
use wallet_engine.Base.Results.{Result, ok, err}
use wallet_engine.KeyHistory.{recover_signing_keys}
use wallet_engine.Types.Texts.{Text, codes}
use wallet_engine.Types.Decimal.{BigUintText}
use wallet_engine.Engine.Snapshot.{WalletClientConfig}
use wallet_engine.Engine.State.{
  State, Outcome, invalid_protected_secret, OperationFamily, is_current,
}
use wallet_engine.Engine.Comment.{
  EncryptedCommentError, World, CommentHost, ensure_encrypted_comment_current,
  finish_invalid_protected_secret, history_reaches, is_key_mismatch, error_text, secret_answered,
  own_keys_tried, earlier_keys_tried, invalid_mnemonic, comment_too_long, wallet_identity_mismatch,
  invalid_peer_public_key, recipient_public_key_mismatch, random_generation, invalid_body,
  authentication_failed, invalid_utf8, cell_encoding,
}
use wallet_engine.Engine.Comment.Pages.{key_change_history}
use wallet_engine.Engine.Comment.Decryption.{
  with_earlier_keys, try_earlier_keys, with_own_keys, try_own_keys, with_keys, continue_decryption,
  with_secret, decrypt_comment_with_keys,
}
use wallet_engine.Engine.Comment.Slot.{
  IsFree, FailsFree, complete-IsFree, and_then-IsFree, fail_lookup-IsFree, fail-IsFree,
  cached_or_read-FailsFree,
}

module _ {A : Type 0} where
  module _ (big : BigUintText) (host : CommentHost A) (world : World A) where
    with_earlier_keys-IsFree :
        (generation : ℕ) (tried : Result EncryptedCommentError Text) (s : State A)
        → IsFree generation (with_earlier_keys big host world generation tried s).state
    unfolding with_earlier_keys
    with_earlier_keys-IsFree generation (ok comment) s = complete-IsFree generation (ok comment) s
    with_earlier_keys-IsFree generation (err error) s =
        fail-IsFree Text generation (error_text error) s

    try_earlier_keys-IsFree :
        (generation : ℕ) (anchor signing : Bytes) (sender : A) (body : Bytes) (s : State A)
        → IsFree generation
            (try_earlier_keys big host world generation anchor signing sender body s).state
    unfolding try_earlier_keys key_change_history
    try_earlier_keys-IsFree generation anchor signing sender body s =
        and_then-IsFree generation _ _
          (cached_or_read-FailsFree big host world generation (host.verifying_key signing)
            s.key_changes s)
          λ t changes.
            if-cases (λ (o : Outcome A Text). IsFree generation o.state)
              (not (history_reaches changes (host.verifying_key signing))) _ _
              (λ unreached.
                fail_lookup-IsFree Text generation
                  (codes
                    "the provider's key-change history does not include the current signing key yet")
                  t)
              (λ reached.
                with_earlier_keys-IsFree generation
                  (decrypt_comment_with_keys big host world
                    (recover_signing_keys host.sha256 host.verifying_key (host.verifying_key anchor)
                      signing changes)
                    sender body)
                  (world.others earlier_keys_tried t))

    with_own_keys-IsFree :
        (generation : ℕ) (anchor signing : Bytes) (sender : A) (body : Bytes) (rotated : Bool)
        (tried : Result EncryptedCommentError Text) (s : State A)
        → IsFree generation
            (with_own_keys big host world generation anchor signing sender body rotated tried
              s).state
    unfolding with_own_keys
    with_own_keys-IsFree generation anchor signing sender body rotated (ok comment) s =
        complete-IsFree generation (ok comment) s
    with_own_keys-IsFree generation anchor signing sender body rotated (err error) s =
        if-cases (λ (o : Outcome A Text). IsFree generation o.state)
          (rotated && is_key_mismatch error) _ _
          (λ earlier. try_earlier_keys-IsFree generation anchor signing sender body s)
          (λ ends. fail-IsFree Text generation (error_text error) s)

    with_keys-IsFree :
        (generation : ℕ) (sender : A) (body : Bytes)
        (keys : Result EncryptedCommentError (Bytes × Bytes)) (s : State A)
        → IsFree generation (with_keys big host world generation sender body keys s).state
    unfolding with_keys try_own_keys finish_invalid_protected_secret
    with_keys-IsFree generation sender body (ok (anchor, signing)) s =
        let rotated = not (same_bytes (host.verifying_key anchor) (host.verifying_key signing)) in
        let own_keys = signing ∷ (if rotated then anchor ∷ [] else []) in
        with_own_keys-IsFree generation anchor signing sender body rotated
          (decrypt_comment_with_keys big host world own_keys sender body)
          (world.others own_keys_tried s)
    with_keys-IsFree generation sender body (err invalid_mnemonic) s =
        complete-IsFree generation (err invalid_protected_secret) s
    with_keys-IsFree generation sender body (err comment_too_long) s =
        fail-IsFree Text generation (error_text comment_too_long) s
    with_keys-IsFree generation sender body (err wallet_identity_mismatch) s =
        fail-IsFree Text generation (error_text wallet_identity_mismatch) s
    with_keys-IsFree generation sender body (err invalid_peer_public_key) s =
        fail-IsFree Text generation (error_text invalid_peer_public_key) s
    with_keys-IsFree generation sender body (err recipient_public_key_mismatch) s =
        fail-IsFree Text generation (error_text recipient_public_key_mismatch) s
    with_keys-IsFree generation sender body (err random_generation) s =
        fail-IsFree Text generation (error_text random_generation) s
    with_keys-IsFree generation sender body (err invalid_body) s =
        fail-IsFree Text generation (error_text invalid_body) s
    with_keys-IsFree generation sender body (err authentication_failed) s =
        fail-IsFree Text generation (error_text authentication_failed) s
    with_keys-IsFree generation sender body (err invalid_utf8) s =
        fail-IsFree Text generation (error_text invalid_utf8) s
    with_keys-IsFree generation sender body (err cell_encoding) s =
        fail-IsFree Text generation (error_text cell_encoding) s

    ensure-FailsFree :
        (generation : ℕ) (s : State A)
        → FailsFree generation (ensure_encrypted_comment_current generation s)
    unfolding ensure_encrypted_comment_current FailsFree
    ensure-FailsFree generation s =
        elim (Bool-cases (is_current s OperationFamily.resolution generation)) [
          | inl holds ↦ rw holds (λ e failed. absurd cc)
          | inr other ↦ rw other (λ e failed. other)
        ]

    with_secret-IsFree :
        (generation : ℕ) (config : WalletClientConfig A) (sender : A) (body : Bytes)
        (secret : Result Text Bytes) (s : State A)
        → IsFree generation
            (with_secret big host world generation config sender body secret s).state
    unfolding with_secret
    with_secret-IsFree generation config sender body (err message) s =
        fail-IsFree Text generation message s
    with_secret-IsFree generation config sender body (ok secret) s =
        and_then-IsFree generation _ _ (ensure-FailsFree generation s)
          λ u _. with_keys-IsFree generation sender body (host.comment_keys secret config) u

    -- A decryption that goes on for a generation ends with that generation out of the slot.
    pub continue_decryption-IsFree :
        (generation : ℕ) (config : WalletClientConfig A) (sender : A) (body : Bytes) (s : State A)
        → is_current
            (continue_decryption big host world generation config sender body s).state
            OperationFamily.resolution
            generation
          ≡ false
    unfolding continue_decryption
    continue_decryption-IsFree generation config sender body s =
        with_secret-IsFree generation config sender body world.secret
          (world.others secret_answered s)
