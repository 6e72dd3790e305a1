-- ===== src/Engine/Comment/Earlier.antt =====
-- A comment for a key that the wallet had before its rotations (src/engine/encrypted_comment.rs,
-- src/wallet/key_history.rs).
use wallet_engine.Base.{
  ℕ, ◌≡◌, ◌∙◌, true, false, Option, some, List, [], ◌∷◌, ◌++◌, map, All, Bool-cases, inl, inr,
}
use wallet_engine.Base.Bytes.{Bytes, same_bytes, same_bytes_refl}
use wallet_engine.Base.Results.{ok, err}
use wallet_engine.Types.Texts.{Text}
use wallet_engine.Types.Decimal.{BigUintText}
use wallet_engine.KeyHistory.{KeyChange, recover_signing_keys}
use wallet_engine.KeyHistory.Installed.{Installs, Distinct}
use wallet_engine.KeyHistory.Chain.{IsKey, Rotations, recover_signing_keys-Rotations}
use wallet_engine.Engine.Snapshot.{WalletClientConfig}
use wallet_engine.Engine.State.{State, OperationFamily, is_current, and_then, returns, Outcome}
use wallet_engine.Engine.Comment.{
  EncryptedCommentError, Point, World, CommentHost, is_key_mismatch, or_next, earlier_keys_tried,
  own_keys_tried, secret_answered, authentication_failed, history_reaches,
  ensure_encrypted_comment_current, complete_encrypted_comment_operation,
}
use wallet_engine.Engine.Comment.Pages.{key_change_history, cached_or_read}
use wallet_engine.Engine.Comment.Decryption.{
  decrypt_comment_with_keys, continue_decryption, with_secret, with_keys, try_own_keys,
  with_own_keys, try_earlier_keys, with_earlier_keys,
}

history_reaches-Installs :
    (changes : List KeyChange) (key : Bytes)
    → Installs key changes
    → history_reaches changes key ≡ true
unfolding history_reaches
history_reaches-Installs [] key h = absurd h
history_reaches-Installs (c ∷ changes) key (inl same) =
    let itself : same_bytes c.new_public_key key ≡ true = rw (same, same_bytes_refl key) in
    rw itself
history_reaches-Installs (c ∷ changes) key (inr later) =
    elim (Bool-cases (same_bytes c.new_public_key key)) [
      | inl here ↦ rw here
      | inr other ↦ rw (other, history_reaches-Installs changes key later)
    ]

Rotations-Installs :
    (sha256 verifying_key : Bytes → Bytes) (changes : List KeyChange) (anchor key : Bytes)
    (olders : List Bytes)
    → Rotations sha256 verifying_key changes anchor key olders
    → Installs (verifying_key key) changes
Rotations-Installs sha256 verifying_key changes anchor key [] (replaced, rest) = replaced.0
Rotations-Installs sha256 verifying_key changes anchor key (older ∷ olders)
      (replaced, full, other, rest) =
    replaced.0

and_then-returns :
    {A X Y : Type 0} (s : State A) (v : X) (o : Outcome A X) (next : State A → X → Outcome A Y)
    → o ≡ returns s (ok v)
    → (and_then o next).result ≡ (next s v).result
unfolding and_then
and_then-returns s v o next is = rw is

module _ {A : Type 0} (big : BigUintText) (host : CommentHost A) (world : World A) where
  -- The key is not the one that the body uses.
  abbrev pub IsMismatch : A → Bytes → Bytes → Type 0
  IsMismatch sender body key =
      (e : EncryptedCommentError) × (host.decrypt_with_key key sender body ≡ err e)
      × (is_key_mismatch e ≡ true)

  decrypt_comment_with_keys-found :
      (sender : A) (body : Bytes) (before after : List Bytes) (key : Bytes) (comment : Text)
      → All (IsMismatch sender body) before
      → host.decrypt_with_key key sender body ≡ ok comment
      → decrypt_comment_with_keys big host world (before ++ (key ∷ after)) sender body ≡ ok comment
  unfolding decrypt_comment_with_keys or_next
  decrypt_comment_with_keys-found sender body [] after key comment h is = rw is
  decrypt_comment_with_keys-found sender body (k ∷ before) after key comment ((e, fails, other), h)
        is =
      rw (fails, other, decrypt_comment_with_keys-found sender body before after key comment h is)

  mismatch_step :
      (sender : A) (body key : Bytes) (keys : List Bytes)
      → IsMismatch sender body key
      → decrypt_comment_with_keys big host world (key ∷ keys) sender body
        ≡ decrypt_comment_with_keys big host world keys sender body
  unfolding decrypt_comment_with_keys or_next
  mismatch_step sender body key keys (e, fails, other) = rw (fails, other)

  own_keys_fail :
      (sender : A) (body signing anchor : Bytes)
      → IsMismatch sender body signing
      → IsMismatch sender body anchor
      → decrypt_comment_with_keys big host world (signing ∷ anchor ∷ []) sender body
        ≡ err authentication_failed
  unfolding decrypt_comment_with_keys or_next
  own_keys_fail sender body signing anchor fails fails_too =
      mismatch_step sender body signing (anchor ∷ []) fails
      ∙ mismatch_step sender body anchor [] fails_too

  cached_history :
      (generation : ℕ) (public_key : Bytes) (cached : Option (List KeyChange))
      (changes : List KeyChange) (s : State A)
      → cached ≡ some changes
      → history_reaches changes public_key ≡ true
      → cached_or_read big host world generation public_key cached s ≡ returns s (ok changes)
  unfolding cached_or_read
  cached_history generation public_key cached changes s is reached = rw (is, reached)

  -- What a decryption meets: the platform gives the secret, which has the anchor and the signing key,
  -- no other operation interferes, and the history is cached.
  pub record Meets (config : WalletClientConfig A) (anchor signing : Bytes)
      (changes : List KeyChange) (generation : ℕ) (s : State A) : Type 0 where
    pub secret : Bytes
    pub read : world.secret ≡ ok secret
    pub keys : host.comment_keys secret config ≡ ok (anchor, signing)
    pub quiet : (point : Point) (t : State A) → world.others point t ≡ t
    pub holds_slot : is_current s OperationFamily.resolution generation ≡ true
    pub cached : s.key_changes ≡ some changes

  completes :
      (generation : ℕ) (comment : Text) (s : State A)
      → is_current s OperationFamily.resolution generation ≡ true
      → (with_earlier_keys big host world generation (ok comment) s).result ≡ ok comment
  unfolding with_earlier_keys complete_encrypted_comment_operation
  completes generation comment s holds = rw holds

  -- What is tried with the keys that a history gives back.
  earlier_found :
      (sender : A) (body : Bytes) (generation : ℕ) (anchor signing : Bytes)
      (changes : List KeyChange) (comment : Text) (s : State A)
      → ((t : State A) → world.others earlier_keys_tried t ≡ t)
      → is_current s OperationFamily.resolution generation ≡ true
      → s.key_changes ≡ some changes
      → history_reaches changes (host.verifying_key signing) ≡ true
      → decrypt_comment_with_keys big host world
          (recover_signing_keys host.sha256 host.verifying_key
            (host.verifying_key anchor)
            signing
            changes)
          sender
          body
        ≡ ok comment
      → (try_earlier_keys big host world generation anchor signing sender body s).result
        ≡ ok comment
  unfolding try_earlier_keys key_change_history
  earlier_found sender body generation anchor signing changes comment s quiet holds cached reached
        found =
      and_then-returns s changes _ _ (
        cached_history generation (host.verifying_key signing) s.key_changes changes s cached
          reached)
      ∙ rw (reached, found, quiet s) (completes generation comment s holds)

  secret_read :
      (config : WalletClientConfig A) (sender : A) (body : Bytes) (generation : ℕ)
      (anchor signing : Bytes) (comment : Text) (s : State A) (secret : Bytes)
      → is_current s OperationFamily.resolution generation ≡ true
      → host.comment_keys secret config ≡ ok (anchor, signing)
      → (try_own_keys big host world generation anchor signing sender body s).result ≡ ok comment
      → (with_secret big host world generation config sender body (ok secret) s).result ≡ ok comment
  unfolding with_secret with_keys ensure_encrypted_comment_current
  secret_read config sender body generation anchor signing comment s secret holds keys tried =
      let current : ensure_encrypted_comment_current generation s ≡ returns s (ok tt) = rw holds in
      and_then-returns s tt _ _ current ∙ rw keys tried

  module _ (digest : (bytes : Bytes) → IsKey (host.sha256 bytes)) where
    -- A decryption that holds the slot, and during which no other operation changes the state, decrypts
    -- a comment that is encrypted for a key that the wallet had between its anchor and its rotations,
    -- if the history that is cached records every rotation. The platform returns the secret, which
    -- holds the anchor and a signing key with another public key; the keys that are tried before do
    -- not match the body, the installed keys differ from one another, and digests have 32 bytes.
    pub decrypts_earlier :
        (config : WalletClientConfig A) (sender : A) (body : Bytes) (generation : ℕ) (s : State A)
        (anchor signing : Bytes) (changes : List KeyChange) (before after : List Bytes)
        (key : Bytes) (comment : Text)
        → Meets config anchor signing changes generation s
        → same_bytes (host.verifying_key anchor) (host.verifying_key signing) ≡ false
        → Rotations host.sha256 host.verifying_key changes anchor signing (before ++ (key ∷ after))
        → Distinct (host.verifying_key signing ∷ map host.verifying_key (before ++ (key ∷ after)))
        → IsMismatch sender body signing
        → IsMismatch sender body anchor
        → All (IsMismatch sender body) before
        → host.decrypt_with_key key sender body ≡ ok comment
        → (continue_decryption big host world generation config sender body s).result ≡ ok comment
    unfolding continue_decryption try_own_keys with_own_keys is_key_mismatch
    decrypts_earlier config sender body generation s anchor signing changes before after key comment
          meets rotated rotations distinct signing_fails anchor_fails befores found =
        let reached = history_reaches-Installs changes (host.verifying_key signing) (
          Rotations-Installs host.sha256 host.verifying_key changes anchor signing
            (before ++ (key ∷ after)) rotations) in
        let recovered =
          recover_signing_keys-Rotations host.sha256 host.verifying_key digest changes anchor
            signing (before ++ (key ∷ after)) rotations distinct in
        let tried =
          earlier_found sender body generation anchor signing changes comment s
            (meets.quiet earlier_keys_tried) meets.holds_slot meets.cached reached
            (rw recovered (
              decrypt_comment_with_keys-found sender body before after key comment befores
                found)) in
        rw (meets.read, meets.quiet secret_answered s)
          (secret_read config sender body generation anchor signing comment s meets.secret
            meets.holds_slot meets.keys
            (rw
              (
                rotated,
                own_keys_fail sender body signing anchor signing_fails anchor_fails,
                meets.quiet own_keys_tried s,
              )
              tried))
