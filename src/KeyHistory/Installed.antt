-- ===== src/KeyHistory/Installed.antt =====
-- The map from an installed key to the record of its rotation (src/wallet/key_history.rs).
use wallet_engine.Base.{
  suc, ◌≤◌, ◌+◌, ◌≡◌, refl, arith, true, false, some, List, [], ◌∷◌, length, All, is_some,
  if◌then◌else◌, inl, inr, ◌⊎◌,
}
use wallet_engine.Base.Bytes.{Bytes, same_bytes, same_bytes_refl, same_bytes-eq}
use wallet_engine.KeyHistory.{KeyChange, Installed, get, insert, collect}

pub get-insert :
    (k j v : Bytes) (m : Installed)
    → get j (insert k v m) ≡ (if same_bytes k j then some v else get j m)
unfolding get insert
get-insert k j v [] = refl
get-insert k j v ((i, w) ∷ m) = ground (
  arith,
  get-insert k j v m,
  same_bytes-eq i k,
  same_bytes-eq i j,
  same_bytes-eq k j,
  same_bytes_refl i,
  same_bytes_refl k,
)

-- Every rotation that installed `k` published `v`.
abbrev pub Agrees : Bytes → Bytes → List KeyChange → Type 0
Agrees k v = All (λ c. c.new_public_key ≡ k → c.encrypted_old_private_key ≡ v)

-- Some rotation installed `k`.
abbrev pub Installs : Bytes → List KeyChange → Type 0
Installs k [] = ⊥
Installs k (c ∷ cs) = (c.new_public_key ≡ k) ⊎ Installs k cs

get-collect_kept :
    (k v : Bytes) (cs : List KeyChange) (m : Installed)
    → Agrees k v cs
    → get k m ≡ some v
    → get k (collect cs m) ≡ some v
unfolding collect
get-collect_kept k v [] m agree h = h
get-collect_kept k v (c ∷ cs) m (agree, rest) h = get-collect_kept k v cs _ rest (
    ground (
      arith,
      get-insert c.new_public_key k c.encrypted_old_private_key m,
      same_bytes-eq c.new_public_key k,
      agree,
    ))

pub get-collect :
    (k v : Bytes) (cs : List KeyChange) (m : Installed)
    → Agrees k v cs
    → Installs k cs
    → get k (collect cs m) ≡ some v
unfolding collect
get-collect k v [] m agree h = absurd h
get-collect k v (c ∷ cs) m (agree, rest) (inl e) = get-collect_kept k v cs _ rest (
    ground (
      arith,
      get-insert c.new_public_key k c.encrypted_old_private_key m,
      same_bytes_refl k,
      agree e,
    ))
get-collect k v (c ∷ cs) m (agree, rest) (inr h) = get-collect k v cs _ rest h

remove : Bytes → Installed → Installed
remove k [] = []
remove k ((j, v) ∷ m) = if same_bytes j k then m else (j, v) ∷ remove k m

length-remove :
    (k : Bytes) (m : Installed) → is_some (get k m) ≡ true → suc (length (remove k m)) ≤ length m
unfolding remove get
length-remove k [] h = absurd cc
length-remove k ((j, v) ∷ m) h = ground (arith, length-remove k m)

get-remove : (k i : Bytes) (m : Installed) → same_bytes i k ≡ false → get i (remove k m) ≡ get i m
unfolding remove get
get-remove k i [] h = refl
get-remove k i ((j, v) ∷ m) h =
    ground (arith, get-remove k i m h, same_bytes-eq j k, same_bytes-eq j i, same_bytes_refl k)

-- Keys that differ from one another.
abbrev pub Distinct : List Bytes → Type 0
Distinct [] = Unit {0}
Distinct (k ∷ ks) = All (λ i. same_bytes i k ≡ false) ks × Distinct ks

All-get-remove :
    (k : Bytes) (ks : List Bytes) (m : Installed)
    → All (λ i. same_bytes i k ≡ false) ks
    → All (λ i. is_some (get i m) ≡ true) ks
    → All (λ i. is_some (get i (remove k m)) ≡ true) ks
All-get-remove k [] m d h = tt
All-get-remove k (i ∷ ks) m (d, ds) (h, hs) =
    (rw (get-remove k i m d) h, All-get-remove k ks m ds hs)

-- A map has room for all the distinct keys that are found in it.
pub length-le-installed :
    (ks : List Bytes) (m : Installed)
    → Distinct ks
    → All (λ i. is_some (get i m) ≡ true) ks
    → length ks ≤ length m
length-le-installed [] m d h = omega arith
length-le-installed (k ∷ ks) m (d, ds) (h, hs) = omega (
  arith,
  length-remove k m h,
  length-le-installed ks (remove k m) ds (All-get-remove k ks m d hs),
)

length-insert : (k v : Bytes) (m : Installed) → length (insert k v m) ≤ length m + 1
unfolding insert
length-insert k v [] = omega arith
length-insert k v ((j, w) ∷ m) = ground (arith, length-insert k v m)

pub length-collect :
    (cs : List KeyChange) (m : Installed) → length (collect cs m) ≤ length cs + length m
unfolding collect
length-collect [] m = omega arith
length-collect (c ∷ cs) m = omega (
  arith,
  length-collect cs (insert c.new_public_key c.encrypted_old_private_key m),
  length-insert c.new_public_key c.encrypted_old_private_key m,
)
