-- ===== src/Tests/Engine/Comment.antt =====
-- The decryption of a comment for an earlier key, and what is left of a decryption that a shutdown
-- interrupts (src/engine/encrypted_comment.rs).
use wallet_engine.Base.{
  ℕ, ◌+◌, true, false, ◌≡◌, ◌⊎◌, refl, arith, none, some, [], ◌∷◌, if◌then◌else◌,
}
use wallet_engine.Base.Bytes.{same_bytes}
use wallet_engine.Base.Results.{ok, err}
use wallet_engine.Types.Texts.{codes}
use wallet_engine.Types.Decimal.{BigUintText}
use wallet_engine.Engine.State.{
  State, OperationFamily, WalletClientError, is_current, is_generation, returns,
}
use wallet_engine.Engine.Client.{new_state}
use wallet_engine.Engine.Comment.{
  World, CommentHost, Point, page_answered, authentication_failed, is_key_mismatch,
}
use wallet_engine.Engine.Comment.Decryption.{decrypt_comment, continue_decryption, start_decryption}
use wallet_engine.Engine.Comment.Whole.{with_slot, decrypt_comment-Ends}
use wallet_engine.Base.Words.{checked_add}
use wallet_engine.Engine.Comment.Earlier.{Meets, decrypts_earlier}
use wallet_engine.Tests.Engine.{config}
use wallet_engine.Tests.KeyHistory.{
  seed, constant_digest, own_public, history, rotations, seed-IsKey,
}

abbrev one_digit : BigUintText
one_digit = record { from_str = λ s. none; to_str_radix = λ n. (48 + n) ∷ [] }

-- The body uses the second of the three keys.
abbrev cryptography : CommentHost ℕ
cryptography = record {
  sha256 = constant_digest;
  verifying_key = own_public;
  comment_keys = λ secret config. ok (seed 1, seed 3);
  validate = λ body. ok tt;
  decrypt_with_key = λ key sender body.
      if same_bytes key (seed 2) then ok (codes "hi") else err authentication_failed;
}

abbrev quiet_world : World ℕ
quiet_world = record { secret = ok []; page = λ n. err (codes "offline"); others = λ point s. s }

abbrev decrypting : State ℕ
decrypting = record (new_state config) {
  resolution_generation = 1;
  active_resolution = some (1, []);
  key_changes = some history;
}

meets : Meets one_digit cryptography quiet_world config (seed 1) (seed 3) history 1 decrypting
unfolding is_current is_generation
meets = record {
  secret = [];
  read = refl;
  keys = refl;
  quiet = λ point t. refl;
  holds_slot = refl;
  cached = refl;
}

decrypts_earlier_example :
    (continue_decryption one_digit cryptography quiet_world 1 config 7 [] decrypting).result
    ≡ ok (codes "hi")
unfolding is_key_mismatch
decrypts_earlier_example =
    decrypts_earlier one_digit cryptography quiet_world (λ bs. seed-IsKey 0x5a (omega arith)) config
      7 [] 1 decrypting (seed 1) (seed 3) history [] [] (seed 2) (codes "hi") meets refl rotations
      ((refl, tt), (tt, tt)) (authentication_failed, refl, refl) (authentication_failed, refl, refl)
      tt refl

-- The history is not cached, and a shutdown takes the slot while the first page is read.
abbrev stopped : Point → State ℕ → State ℕ
stopped (page_answered n) s = record s { active_resolution = none; closing = true }
stopped _ s = s

abbrev stopping_world : World ℕ
stopping_world = record (quiet_world) { others = stopped }

abbrev waiting : State ℕ
waiting =
    record (new_state (record (config) { local_secret_ref = some (record { value = "key" }) })) {
      send_generation = 4;
    }

decrypt_comment-Ends_example :
    let o = decrypt_comment one_digit cryptography stopping_world 7 [] waiting in
    ((o.state ≡ waiting) × (e : WalletClientError) × (o.result ≡ err e))
    ⊎ ((generation : ℕ) × (checked_add waiting.resolution_generation 1 ≡ some generation)
        × (waiting.active_send ≡ none)
        × (waiting.active_resolution ≡ none)
        × (start_decryption one_digit cryptography stopping_world waiting
            ≡ returns (with_slot generation waiting) (ok generation))
        × (o.state
            ≡ (continue_decryption one_digit cryptography stopping_world generation waiting.config 7
                []
                (with_slot generation waiting)).state)
        × (is_current o.state OperationFamily.resolution generation ≡ false))
decrypt_comment-Ends_example =
    decrypt_comment-Ends one_digit cryptography stopping_world 7 [] waiting
