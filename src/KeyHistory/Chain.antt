-- ===== src/KeyHistory/Chain.antt =====
-- A whole history of rotations, walked back from the current key (src/wallet/key_history.rs).
use wallet_engine.Base.{
  ℕ, zero, suc, ◌<◌, ◌≡◌, refl, arith, true, false, some, List, [], ◌∷◌, ◌++◌, map, length, All,
  is_some,
}
use wallet_engine.Base.Bytes.{Bytes, IsBytes, same_bytes, same_bytes_refl, xor_bytes_twice}
use wallet_engine.KeyHistory.{
  KeyChange, key_change_salt, get, collect, encrypt_old_private_key, decrypt_old_private_key, walk,
  recover_signing_keys,
}
use wallet_engine.KeyHistory.Installed.{
  Agrees, Installs, get-collect, Distinct, length-le-installed,
}

-- A 32-byte seed, or a digest of SHA-256.
abbrev pub IsKey : Bytes → Type 0
IsKey k = (length k ≡ 32) × IsBytes k

module _ (sha256 verifying_key : Bytes → Bytes) where
  -- Some change records that `new` replaced `old`, and no other tells of `new` otherwise.
  abbrev pub Replaced : List KeyChange → Bytes → Bytes → Type 0
  Replaced changes old new =
      Installs (verifying_key new) changes
      × Agrees (verifying_key new) (encrypt_old_private_key sha256 verifying_key old new) changes

  -- The keys between the anchor and `key`, newest first, each of them replaced by the one before.
  abbrev pub Rotations : List KeyChange → Bytes → Bytes → List Bytes → Type 0
  Rotations changes anchor key [] = Replaced changes anchor key × IsKey anchor
  Rotations changes anchor key (older ∷ rest) =
      Replaced changes older key
      × IsKey older
      × (same_bytes (verifying_key older) (verifying_key anchor) ≡ false)
      × Rotations changes anchor older rest

  get-Replaced :
      (changes : List KeyChange) (old new : Bytes)
      → Replaced changes old new
      → get (verifying_key new) (collect changes [])
        ≡ some (encrypt_old_private_key sha256 verifying_key old new)
  get-Replaced changes old new (installs, agrees) =
      get-collect (verifying_key new) _ changes [] agrees installs

  Rotations-found :
      (changes : List KeyChange) (anchor key : Bytes) (olders : List Bytes)
      → Rotations changes anchor key olders
      → All
          (λ k. is_some (get k (collect changes [])) ≡ true)
          (verifying_key key ∷ map verifying_key olders)
  Rotations-found changes anchor key [] (replaced, full) =
      (rw (get-Replaced changes anchor key replaced) refl, tt)
  Rotations-found changes anchor key (older ∷ rest) (replaced, full, other, h) = (
    rw (get-Replaced changes older key replaced) refl,
    Rotations-found changes anchor older rest h,
  )

  length-keys : (ks : List Bytes) → length (map verifying_key ks) ≡ length ks
  length-keys [] = refl
  length-keys (k ∷ ks) = omega (arith, length-keys ks)

module _ (sha256 verifying_key : Bytes → Bytes) (digest : (bs : Bytes) → IsKey (sha256 bs)) where
  -- The key that was replaced is opened by the key that replaced it.
  pub decrypt-encrypt :
      (old new : Bytes)
      → IsKey old
      → decrypt_old_private_key sha256 verifying_key
          (encrypt_old_private_key sha256 verifying_key old new)
          new
        ≡ old
  unfolding decrypt_old_private_key encrypt_old_private_key
  decrypt-encrypt old new (full, small) =
      let (size, mask) = digest (new ++ key_change_salt) in
      xor_bytes_twice old (sha256 (new ++ key_change_salt)) small mask (omega arith)

  walk-Rotations :
      (changes : List KeyChange) (anchor key : Bytes) (olders : List Bytes) (room : ℕ)
      → length olders < room
      → Rotations sha256 verifying_key changes anchor key olders
      → walk sha256 verifying_key room
          (collect changes [])
          (verifying_key anchor)
          (verifying_key key)
          key
        ≡ olders
  unfolding walk
  walk-Rotations changes anchor key olders zero fits h = absurd (omega arith)
  walk-Rotations changes anchor key [] (suc room) fits (replaced, full) = rw (
    walk,
    get-Replaced sha256 verifying_key changes anchor key replaced,
    decrypt-encrypt anchor key full,
    same_bytes_refl (verifying_key anchor),
  )
  walk-Rotations changes anchor key (older ∷ rest) (suc room) fits (replaced, full, other, h) = rw (
    walk,
    get-Replaced sha256 verifying_key changes older key replaced,
    decrypt-encrypt older key full,
    other,
    walk-Rotations changes anchor older rest room (omega arith) h,
  )

  -- A history that records every rotation from the anchor to the current key gives back exactly the
  -- keys in between, newest first, in whatever order it lists its records and however often; the
  -- keys that were installed differ from one another, and keys and digests have 32 bytes.
  pub recover_signing_keys-Rotations :
      (changes : List KeyChange) (anchor current : Bytes) (olders : List Bytes)
      → Rotations sha256 verifying_key changes anchor current olders
      → Distinct (verifying_key current ∷ map verifying_key olders)
      → recover_signing_keys sha256 verifying_key (verifying_key anchor) current changes ≡ olders
  unfolding recover_signing_keys
  recover_signing_keys-Rotations changes anchor current olders h d =
      walk-Rotations changes anchor current olders _
        (omega (
          arith,
          length-le-installed (verifying_key current ∷ map verifying_key olders)
              (collect changes []) d
              (Rotations-found sha256 verifying_key changes anchor current olders h),
          length-keys sha256 verifying_key olders,
        ))
        h
