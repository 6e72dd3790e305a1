-- ===== src/KeyHistory/Bounded.antt =====
-- What any walk recovers, whatever the history says (src/wallet/key_history.rs).
use wallet_engine.Base.{
  ℕ, zero, suc, ◌≤◌, ◌≡◌, refl, arith, false, some, List, [], ◌∷◌, length, Bool-cases, Option-cases,
  inl, inr, ◌⊎◌,
}
use wallet_engine.Base.Bytes.{Bytes, same_bytes, same_bytes-eq}
use wallet_engine.KeyHistory.{
  KeyChange, Installed, get, insert, collect, decrypt_old_private_key, walk, recover_signing_keys,
}
use wallet_engine.KeyHistory.Installed.{get-insert, length-collect}

-- A change of the history says that `k` was installed with the masked key `v`.
abbrev pub Published : Bytes → Bytes → List KeyChange → Type 0
Published k v [] = ⊥
Published k v (c ∷ cs) =
    ((c.new_public_key ≡ k) × (c.encrypted_old_private_key ≡ v)) ⊎ Published k v cs

insert-found :
    (i e k v : Bytes) (m : Installed)
    → get k (insert i e m) ≡ some v
    → ((i ≡ k) × (e ≡ v)) ⊎ (get k m ≡ some v)
insert-found i e k v m h = elim (Bool-cases (same_bytes i k)) [
  | inl same ↦ inl (same_bytes-eq i k same, ground (arith, get-insert i k e m))
  | inr other ↦ inr (ground (arith, get-insert i k e m))
]

collect-Published :
    (k v : Bytes) (cs : List KeyChange) (m : Installed)
    → get k (collect cs m) ≡ some v
    → Published k v cs ⊎ (get k m ≡ some v)
unfolding collect
collect-Published k v [] m h = inr h
collect-Published k v (c ∷ cs) m h =
    elim (collect-Published k v cs (insert c.new_public_key c.encrypted_old_private_key m) h) [
      | inl published ↦ inl (inr published)
      | inr found ↦ elim (insert-found c.new_public_key c.encrypted_old_private_key k v m found) [
        | inl here ↦ inl (inl here)
        | inr older ↦ inr older
      ]
    ]

module _ (sha256 verifying_key : Bytes → Bytes) where
  -- Each key was opened from a published record by the key after it, and none is the anchor.
  abbrev pub Opened : List KeyChange → Bytes → Bytes → List Bytes → Type 0
  Opened changes anchor key [] = Unit {0}
  Opened changes anchor key (older ∷ rest) =
      ((v : Bytes) × Published (verifying_key key) v changes
        × (older ≡ decrypt_old_private_key sha256 verifying_key v key))
      × (same_bytes (verifying_key older) anchor ≡ false)
      × Opened changes anchor older rest

  published :
      (changes : List KeyChange) (k v : Bytes)
      → get k (collect changes []) ≡ some v
      → Published k v changes
  unfolding get
  published changes k v is = elim (collect-Published k v changes [] is) [
    | inl listed ↦ listed
    | inr nothing ↦ absurd cc
  ]

  walk-Opened :
      (changes : List KeyChange) (anchor key : Bytes) (room : ℕ)
      → Opened changes anchor key
          (walk sha256 verifying_key room (collect changes []) anchor (verifying_key key) key)
  unfolding walk
  walk-Opened changes anchor key zero = tt
  walk-Opened changes anchor key (suc room) =
      elim (Option-cases (get (verifying_key key) (collect changes []))) [
        | inl absent ↦ rw (walk, absent) tt
        | inr (v, is) ↦
            let older = decrypt_old_private_key sha256 verifying_key v key in
            elim (Bool-cases (same_bytes (verifying_key older) anchor)) [
              | inl last ↦ rw (walk, is, last) tt
              | inr other ↦
                  rw (walk, is, other)
                    (
                      (v, published changes (verifying_key key) v is, refl),
                      other,
                      walk-Opened changes anchor older room,
                    )
            ]
      ]

  length-walk :
      (m : Installed) (anchor public key : Bytes) (room : ℕ)
      → length (walk sha256 verifying_key room m anchor public key) ≤ room
  unfolding walk
  length-walk m anchor public key zero = omega arith
  length-walk m anchor public key (suc room) = elim (Option-cases (get public m)) [
    | inl absent ↦ rw (walk, absent) (omega arith)
    | inr (v, is) ↦
        let older = decrypt_old_private_key sha256 verifying_key v key in
        elim (Bool-cases (same_bytes (verifying_key older) anchor)) [
          | inl last ↦ rw (walk, is, last) (omega arith)
          | inr other ↦
              rw (walk, is, other)
                (omega (arith, length-walk m anchor (verifying_key older) older room))
        ]
  ]

  -- Whatever the history says, the walk ends with at most as many keys as it has records; each key
  -- was opened from a published record of the key after it, and the anchor is not among them.
  pub recover_signing_keys-Opened :
      (changes : List KeyChange) (anchor current : Bytes)
      → (length (recover_signing_keys sha256 verifying_key anchor current changes) ≤ length changes)
        × Opened changes anchor current
            (recover_signing_keys sha256 verifying_key anchor current changes)
  unfolding recover_signing_keys
  recover_signing_keys-Opened changes anchor current = (
    omega (
      arith,
      length-walk (collect changes []) anchor (verifying_key current) current
          (length (collect changes [])),
      length-collect changes [],
    ),
    walk-Opened changes anchor current (length (collect changes [])),
  )
