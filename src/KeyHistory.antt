-- ===== src/KeyHistory.antt =====
-- The history of a wallet's signing keys (src/wallet/key_history.rs): each rotation publishes the
-- key that it replaces, masked with the key that it installs. SHA-256 and the public key of an
-- Ed25519 seed belong to other crates, and are the parameters `sha256` and `verifying_key`.
pub mod Installed
pub mod Chain
pub mod Bounded
use wallet_engine.Base.{
  ℕ, zero, suc, Bool, true, Option, none, some, List, [], ◌∷◌, ◌++◌, length, if◌then◌else◌,
}
use wallet_engine.Base.Bytes.{Bytes, same_bytes, xor_bytes}
use wallet_engine.Types.Texts.{codes}

pub record KeyChange : Type 0 where
  pub new_public_key : Bytes
  pub encrypted_old_private_key : Bytes

abbrev pub key_change_salt : Bytes
key_change_salt = codes "keyChangeSaltV1"

-- `HashMap<[u8; 32], [u8; 32]>`, as an association list.
abbrev pub Installed : Type 0
Installed = List (Bytes × Bytes)

unfoldable pub get : Bytes → Installed → Option Bytes
get k [] = none
get k ((j, v) ∷ m) = if same_bytes j k then some v else get k m

unfoldable pub insert : Bytes → Bytes → Installed → Installed
insert k v [] = (k, v) ∷ []
insert k v ((j, w) ∷ m) = if same_bytes j k then (j, v) ∷ m else (j, w) ∷ insert k v m

-- `.collect()`, over the changes that are left.
unfoldable pub collect : List KeyChange → Installed → Installed
unfolding insert
collect [] m = m
collect (c ∷ cs) m = collect cs (insert c.new_public_key c.encrypted_old_private_key m)

module _ (sha256 verifying_key : Bytes → Bytes) where
  unfoldable pub xor_with_mask : Bytes → Bytes → Bytes
  unfolding xor_bytes
  xor_with_mask value new_key = xor_bytes value (sha256 (new_key ++ key_change_salt))

  unfoldable pub encrypt_old_private_key : Bytes → Bytes → Bytes
  unfolding xor_with_mask
  encrypt_old_private_key old_key new_key = xor_with_mask old_key new_key

  unfoldable pub decrypt_old_private_key : Bytes → Bytes → Bytes
  unfolding xor_with_mask
  decrypt_old_private_key encrypted new_key = xor_with_mask encrypted new_key

  -- The loop: `room` is what `installed_by.len()` leaves, and `key` is the key that was recovered
  -- last, or the current one. It returns the keys that it still adds.
  unfoldable pub walk : ℕ → Installed → Bytes → Bytes → Bytes → List Bytes
  unfolding get decrypt_old_private_key
  walk zero installed_by anchor_public_key public_key key = []
  walk (suc room) installed_by anchor_public_key public_key key =
      elim (get public_key installed_by) [
        | none ↦ []
        | some encrypted ↦
            let older = decrypt_old_private_key encrypted key in
            let rest = walk room installed_by anchor_public_key (verifying_key older) older in
            if same_bytes (verifying_key older) anchor_public_key then [] else older ∷ rest
      ]

  unfoldable pub recover_signing_keys : Bytes → Bytes → List KeyChange → List Bytes
  unfolding collect walk
  recover_signing_keys anchor_public_key current changes =
      let installed_by = collect changes [] in
      walk (length installed_by) installed_by anchor_public_key (verifying_key current) current
