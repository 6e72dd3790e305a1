-- ===== src/Address/Slices.antt =====
-- Slices of the 36 bytes of an address (crates/ton-connect-core/src/friendly_address.rs).
use wallet_engine.Base.{
  ℕ, ◌≡◌, refl, ap, arith, some, List, [], ◌∷◌, ◌++◌, length, take, drop, length-append, ◌∙◌, sym,
}
use wallet_engine.Cell.Reader.{get_range}
use wallet_engine.Address.{be_bytes}

take-length-append : (xs ys : List ℕ) → take (length xs) (xs ++ ys) ≡ xs
take-length-append [] ys = refl
take-length-append (x ∷ xs) ys = ap (λ t. x ∷ t) (take-length-append xs ys)

drop-length-append : (xs ys : List ℕ) → drop (length xs) (xs ++ ys) ≡ ys
drop-length-append [] ys = refl
drop-length-append (x ∷ xs) ys = drop-length-append xs ys

module _ (tag byte : ℕ) (hash : List ℕ) (c : ℕ) (full : length hash ≡ 32) where
  take_hash : take 32 (hash ++ be_bytes c) ≡ hash
  take_hash =
      ap (λ n. take n (hash ++ be_bytes c)) (sym full) ∙ take-length-append hash (be_bytes c)

  drop_hash : drop 32 (hash ++ be_bytes c) ≡ be_bytes c
  drop_hash =
      ap (λ n. drop n (hash ++ be_bytes c)) (sym full) ∙ drop-length-append hash (be_bytes c)

  pub length_bytes : length (tag ∷ byte ∷ hash ++ be_bytes c) ≡ 36
  length_bytes = omega (arith, full, length-append hash (be_bytes c))

  pub get_payload : get_range (tag ∷ byte ∷ hash ++ be_bytes c) 0 34 ≡ some (tag ∷ byte ∷ hash)
  unfolding get_range
  get_payload = rw (length_bytes, take_hash)

  pub get_checksum :
      get_range (tag ∷ byte ∷ hash ++ be_bytes c) 34 (length (tag ∷ byte ∷ hash ++ be_bytes c))
      ≡ some (be_bytes c)
  unfolding get_range
  get_checksum = rw (length_bytes, drop_hash)

  pub get_hash : get_range (tag ∷ byte ∷ hash ++ be_bytes c) 2 34 ≡ some hash
  unfolding get_range
  get_hash = rw (length_bytes, take_hash)
