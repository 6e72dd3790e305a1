-- ===== src/Tests/KeyHistory.antt =====
-- A wallet that rotated its key twice (src/wallet/key_history.rs).
use wallet_engine.Base.{ℕ, zero, suc, ◌≤◌, ◌<◌, ◌≡◌, refl, arith, List, [], ◌∷◌, length, inl, inr}
use wallet_engine.Base.Bytes.{Bytes, xor_bytes}
use wallet_engine.KeyHistory.{
  KeyChange, encrypt_old_private_key, decrypt_old_private_key, recover_signing_keys, walk, collect,
  get, insert, xor_with_mask,
}
use wallet_engine.KeyHistory.Chain.{IsKey, Rotations, recover_signing_keys-Rotations}
use wallet_engine.KeyHistory.Bounded.{Opened, recover_signing_keys-Opened}

abbrev pub repeat : ℕ → ℕ → Bytes
repeat b zero = []
repeat b (suc n) = b ∷ repeat b n

abbrev pub seed : ℕ → Bytes
seed b = repeat b 32

-- A digest that does not depend on the text, and seeds that are their own public keys.
abbrev pub constant_digest : Bytes → Bytes
constant_digest bs = seed 0x5a

abbrev pub own_public : Bytes → Bytes
own_public k = k

pub seed-IsKey : (b : ℕ) → b < 256 → IsKey (seed b)
seed-IsKey b small = (refl, omega arith)

abbrev pub rotation : Bytes → Bytes → KeyChange
rotation old new = record {
  new_public_key = new;
  encrypted_old_private_key = encrypt_old_private_key constant_digest own_public old new;
}

-- The record of the first rotation is listed twice.
abbrev pub history : List KeyChange
history = rotation (seed 2) (seed 3) ∷ rotation (seed 1) (seed 2) ∷ rotation (seed 1) (seed 2) ∷ []

differ : seed 2 ≡ seed 3 → ⊥
differ h = cc

differ_back : seed 3 ≡ seed 2 → ⊥
differ_back h = cc

pub rotations : Rotations constant_digest own_public history (seed 1) (seed 3) (seed 2 ∷ [])
rotations = (
  (inl refl, (λ _. refl, (λ h. absurd (differ h), (λ h. absurd (differ h), tt)))),
  seed-IsKey 2 (omega arith),
  refl,
  (
    (inr (inl refl), (λ h. absurd (differ_back h), (λ _. refl, (λ _. refl, tt)))),
    seed-IsKey 1 (omega arith),
  ),
)

recovers : recover_signing_keys constant_digest own_public (seed 1) (seed 3) history ≡ seed 2 ∷ []
unfolding recover_signing_keys walk collect get insert decrypt_old_private_key
    encrypt_old_private_key xor_with_mask xor_bytes
recovers = refl

-- Two records that open one another make a cycle, and the walk stops.
cycle :
    recover_signing_keys constant_digest own_public
      (seed 1)
      (seed 3)
      (rotation (seed 2) (seed 3) ∷ rotation (seed 3) (seed 2) ∷ [])
    ≡ seed 2 ∷ seed 3 ∷ []
unfolding recover_signing_keys walk collect get insert decrypt_old_private_key
    encrypt_old_private_key xor_with_mask xor_bytes
cycle = refl

recover_signing_keys-Rotations_example :
    recover_signing_keys constant_digest own_public (seed 1) (seed 3) history ≡ seed 2 ∷ []
recover_signing_keys-Rotations_example =
    recover_signing_keys-Rotations constant_digest own_public (λ bs. seed-IsKey 0x5a (omega arith))
      history (seed 1) (seed 3) (seed 2 ∷ []) rotations ((refl, tt), (tt, tt))

recover_signing_keys-Opened_example :
    (length (recover_signing_keys constant_digest own_public (seed 1) (seed 3) history)
      ≤ length history)
    × Opened constant_digest own_public history
        (seed 1)
        (seed 3)
        (recover_signing_keys constant_digest own_public (seed 1) (seed 3) history)
recover_signing_keys-Opened_example =
    recover_signing_keys-Opened constant_digest own_public history (seed 1) (seed 3)
