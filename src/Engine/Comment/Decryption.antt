-- ===== src/Engine/Comment/Decryption.antt =====
-- The sections of `decrypt_comment` (src/engine/encrypted_comment.rs).
use wallet_engine.Base.{ℕ, Bool, not, ◌&&◌, ◌||◌, some, List, [], ◌∷◌, if◌then◌else◌, is_some}
use wallet_engine.Base.Bytes.{Bytes, same_bytes}
use wallet_engine.Base.Words.{checked_add}
use wallet_engine.Base.Results.{Result, ok, err, ok_or}
use wallet_engine.Types.Texts.{Text, codes}
use wallet_engine.Types.Decimal.{BigUintText}
use wallet_engine.Domain.Diagnostic.{bounded_diagnostic}
use wallet_engine.KeyHistory.{recover_signing_keys}
use wallet_engine.Engine.Snapshot.{WalletClientConfig}
use wallet_engine.Engine.State.{
  State, Outcome, encrypted_comment_unavailable, local_signing_unavailable,
  send_already_in_progress, identifier_exhausted, returns, and_then, try_, ensure_running,
}
use wallet_engine.Engine.Comment.{
  CommentHost, EncryptedCommentError, World, complete_encrypted_comment_operation,
  ensure_encrypted_comment_current, error_text, fail_encrypted_comment,
  fail_encrypted_comment_lookup, finish_invalid_protected_secret, history_reaches, is_key_mismatch,
  or_next, secret_answered, own_keys_tried, earlier_keys_tried, invalid_mnemonic,
  authentication_failed,
}
use wallet_engine.Engine.Comment.Pages.{key_change_history}

module _ {A : Type 0} where
  module _ (big : BigUintText) (host : CommentHost A) (world : World A) where
    unfoldable pub decrypt_comment_with_keys :
        List Bytes → A → Bytes → Result EncryptedCommentError Text
    unfolding or_next
    decrypt_comment_with_keys [] sender body = err authentication_failed
    decrypt_comment_with_keys (key ∷ keys) sender body =
        or_next (host.decrypt_with_key key sender body) (decrypt_comment_with_keys keys sender body)

    -- The match on the result of the earlier keys.
    unfoldable pub with_earlier_keys :
        ℕ → Result EncryptedCommentError Text → State A → Outcome A Text
    unfolding fail_encrypted_comment complete_encrypted_comment_operation error_text
    with_earlier_keys generation (ok comment) s =
        complete_encrypted_comment_operation generation (ok comment) s
    with_earlier_keys generation (err error) s =
        fail_encrypted_comment generation (error_text error) s

    -- Only earlier signing keys remain.
    unfoldable pub try_earlier_keys : ℕ → Bytes → Bytes → A → Bytes → State A → Outcome A Text
    unfolding key_change_history history_reaches fail_encrypted_comment_lookup recover_signing_keys
        decrypt_comment_with_keys with_earlier_keys
    try_earlier_keys generation anchor signing sender body s =
        and_then (key_change_history big host world generation (host.verifying_key signing) s)
          λ t changes.
            if not (history_reaches changes (host.verifying_key signing))
            then fail_encrypted_comment_lookup generation
                (codes
                  "the provider's key-change history does not include the current signing key yet")
                t
            else with_earlier_keys generation
                (decrypt_comment_with_keys
                  (recover_signing_keys host.sha256 host.verifying_key (host.verifying_key anchor)
                    signing changes)
                  sender body)
                (world.others earlier_keys_tried t)

    -- The match on the result of the keys that the secret holds.
    unfoldable pub with_own_keys :
        ℕ
        → Bytes
        → Bytes
        → A
        → Bytes
        → Bool
        → Result EncryptedCommentError Text
        → State A
        → Outcome A Text
    unfolding try_earlier_keys complete_encrypted_comment_operation fail_encrypted_comment
        error_text is_key_mismatch
    with_own_keys generation anchor signing sender body rotated (ok comment) s =
        complete_encrypted_comment_operation generation (ok comment) s
    with_own_keys generation anchor signing sender body rotated (err error) s =
        if rotated && is_key_mismatch error
        then try_earlier_keys generation anchor signing sender body s
        else fail_encrypted_comment generation (error_text error) s

    unfoldable pub try_own_keys : ℕ → Bytes → Bytes → A → Bytes → State A → Outcome A Text
    unfolding with_own_keys decrypt_comment_with_keys
    try_own_keys generation anchor signing sender body s =
        let rotated = not (same_bytes (host.verifying_key anchor) (host.verifying_key signing)) in
        let own_keys = signing ∷ (if rotated then anchor ∷ [] else []) in
        with_own_keys generation anchor signing sender body rotated
          (decrypt_comment_with_keys own_keys sender body) (world.others own_keys_tried s)

    -- The match on the keys of the secret.
    unfoldable pub with_keys :
        ℕ → A → Bytes → Result EncryptedCommentError (Bytes × Bytes) → State A → Outcome A Text
    unfolding try_own_keys finish_invalid_protected_secret fail_encrypted_comment error_text
    with_keys generation sender body (ok (anchor, signing)) s =
        try_own_keys generation anchor signing sender body s
    with_keys generation sender body (err invalid_mnemonic) s =
        finish_invalid_protected_secret generation s
    with_keys generation sender body (err error) s =
        fail_encrypted_comment generation (error_text error) s

    -- What follows the answer of the platform.
    unfoldable pub with_secret :
        ℕ → WalletClientConfig A → A → Bytes → Result Text Bytes → State A → Outcome A Text
    unfolding with_keys ensure_encrypted_comment_current fail_encrypted_comment
    with_secret generation config sender body (err message) s =
        fail_encrypted_comment generation message s
    with_secret generation config sender body (ok secret) s =
        and_then (ensure_encrypted_comment_current generation s)
          λ u _. with_keys generation sender body (host.comment_keys secret config) u

    -- What follows once the slot is taken.
    unfoldable pub continue_decryption :
        ℕ → WalletClientConfig A → A → Bytes → State A → Outcome A Text
    unfolding with_secret
    continue_decryption generation config sender body s =
        with_secret generation config sender body world.secret (world.others secret_answered s)

    -- The section that takes the slot; it gives the generation.
    unfoldable pub start_decryption : State A → Outcome A ℕ
    unfolding ensure_running try_
    start_decryption s = try_ s (ensure_running s) λ _.
        try_ s (ok_or s.config.local_secret_ref local_signing_unavailable) λ _.
          if is_some s.active_send || is_some s.active_resolution
          then returns s (err send_already_in_progress)
          else try_ s (ok_or (checked_add s.resolution_generation 1) identifier_exhausted)
              λ generation.
                returns
                  (record s {
                    resolution_generation = generation;
                    active_resolution = some (generation, []);
                  })
                  (ok generation)

    -- What follows the validation of the body.
    unfoldable pub with_body :
        A → Bytes → Result EncryptedCommentError (Unit {0}) → State A → Outcome A Text
    unfolding start_decryption continue_decryption bounded_diagnostic error_text
    with_body sender body (err error) s =
        returns s (err (encrypted_comment_unavailable (bounded_diagnostic (error_text error))))
    with_body sender body (ok valid) s =
        and_then (start_decryption s)
          λ t generation. continue_decryption generation t.config sender body t

    unfoldable pub decrypt_comment : A → Bytes → State A → Outcome A Text
    unfolding with_body
    decrypt_comment sender body s = with_body sender body (host.validate body) s
