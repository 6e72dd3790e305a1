-- ===== src/Address/RoundTrip.antt =====
-- Addresses written and read back (crates/ton-connect-core/src/friendly_address.rs).
use wallet_engine.Base.Bytes.{IsBytes, same_bytes_refl}
use wallet_engine.Base.{
  ℕ, ◌<◌, ◌≡◌, refl, arith, Bool, true, false, not, ◌==◌, some, List, [], ◌∷◌, ◌++◌, length, all_of,
  ◌⊎◌, inl, inr, subst, sym,
}
use wallet_engine.Base.Results.{ok}
use wallet_engine.Address.{
  ℤ, pos, negsuc, RawAccountAddress, FriendlyAddress, Base64, i8_try_from, is_known, i8_to_byte,
  i8_from_byte, be_bytes, tag_of, tag_test_only, tag_bounceable, from_raw, from_bytes, try_from,
}
use wallet_engine.Address.Slices.{length_bytes, get_payload, get_checksum, get_hash}

-- What base64 documents: what it writes is read back, and this engine writes no padding.
pub record IsBase64 (base64 : Base64) : Type 0 where
  pub decode-encode : (bs : List ℕ) → IsBytes bs → base64.decode (base64.encode bs) ≡ some bs
  pub unpadded : (bs : List ℕ) → IsBytes bs → all_of (λ c. not (c == 61)) (base64.encode bs) ≡ true

-- The workchains that have user-friendly addresses.
abbrev pub IsKnown : ℤ → Type 0
IsKnown w = (w ≡ pos 0) ⊎ (w ≡ negsuc 0)

IsBytes-append : (xs ys : List ℕ) → IsBytes xs → IsBytes ys → IsBytes (xs ++ ys)
IsBytes-append [] ys p q = q
IsBytes-append (x ∷ xs) ys (p, ps) q = (p, IsBytes-append xs ys ps q)

IsBytes-be_bytes : (c : ℕ) → c < 65536 → IsBytes (be_bytes c)
IsBytes-be_bytes c small = (omega arith, (omega arith, tt))

pub known-try : (w : ℤ) → IsKnown w → i8_try_from w ≡ some w
unfolding i8_try_from
known-try w (inl p) = rw p
known-try w (inr p) = rw p

known-is_known : (w : ℤ) → IsKnown w → is_known w ≡ true
unfolding is_known
known-is_known w (inl p) = rw p
known-is_known w (inr p) = rw p

known-back : (w : ℤ) → IsKnown w → i8_from_byte (i8_to_byte w) ≡ w
unfolding i8_from_byte i8_to_byte
known-back w (inl p) = rw p
known-back w (inr p) = rw p

known-byte : (w : ℤ) → IsKnown w → i8_to_byte w < 256
unfolding i8_to_byte
known-byte w (inl p) = subst (λ v. i8_to_byte v < 256) (sym p) (omega arith)
known-byte w (inr p) = subst (λ v. i8_to_byte v < 256) (sym p) (omega arith)

tag-byte : (b t : Bool) → tag_of b t < 256
unfolding tag_of
tag-byte true true = omega arith
tag-byte true false = omega arith
tag-byte false true = omega arith
tag-byte false false = omega arith

tag_bounceable-tag_of : (b t : Bool) → tag_bounceable (tag_of b t) ≡ ok b
unfolding tag_of tag_bounceable
tag_bounceable-tag_of true true = refl
tag_bounceable-tag_of true false = refl
tag_bounceable-tag_of false true = refl
tag_bounceable-tag_of false false = refl

tag_test_only-tag_of : (b t : Bool) → tag_test_only (tag_of b t) ≡ t
unfolding tag_of tag_test_only
tag_test_only-tag_of true true = refl
tag_test_only-tag_of true false = refl
tag_test_only-tag_of false true = refl
tag_test_only-tag_of false false = refl

module _ (base64 : Base64) (is64 : IsBase64 base64) (crc16 : List ℕ → ℕ)
    (small : (bs : List ℕ) → crc16 bs < 65536) (raw : RawAccountAddress)
    (full : length raw.hash ≡ 32) (bytes_hash : IsBytes raw.hash) (known : IsKnown raw.workchain)
    (b t : Bool) where
  abbrev payload : List ℕ
  payload = tag_of b t ∷ i8_to_byte raw.workchain ∷ raw.hash

  abbrev wire : List ℕ
  wire = payload ++ be_bytes (crc16 payload)

  abbrev address : FriendlyAddress
  address = record { encoded = base64.encode wire; raw = raw; bounceable = b; test_only = t }

  wire-IsBytes : IsBytes wire
  wire-IsBytes = (
    tag-byte b t,
    (
      known-byte raw.workchain known,
      IsBytes-append raw.hash (be_bytes (crc16 payload)) bytes_hash
          (IsBytes-be_bytes (crc16 payload) (small payload)),
    ),
  )

  from_raw-address : from_raw base64 crc16 raw b t ≡ ok address
  unfolding from_raw
  from_raw-address = rw (known-try raw.workchain known, known-is_known raw.workchain known)

  from_bytes-wire : from_bytes base64 crc16 (base64.encode wire) wire ≡ ok address
  unfolding from_bytes
  from_bytes-wire = rw (
    get_payload (tag_of b t) (i8_to_byte raw.workchain) raw.hash (crc16 payload) full,
    get_checksum (tag_of b t) (i8_to_byte raw.workchain) raw.hash (crc16 payload) full,
    same_bytes_refl (be_bytes (crc16 payload)),
    tag_bounceable-tag_of b t,
    known-back raw.workchain known,
    known-is_known raw.workchain known,
    get_hash (tag_of b t) (i8_to_byte raw.workchain) raw.hash (crc16 payload) full,
    tag_test_only-tag_of b t,
  )

  -- An address of a known workchain is written, and its text is read back as the same address,
  -- with its account and its two flags; the hash has 32 bytes, the checksum 16 bits, and the Base64
  -- engine reads back what it writes.
  pub try_from-from_raw :
      (address : FriendlyAddress) × (from_raw base64 crc16 raw b t ≡ ok address)
      × (try_from base64 crc16 address.encoded ≡ ok address)
      × (address.raw ≡ raw)
      × (address.bounceable ≡ b)
      × (address.test_only ≡ t)
  unfolding try_from
  try_from-from_raw = (
    address,
    from_raw-address,
    rw (
      is64.unpadded wire wire-IsBytes,
      is64.decode-encode wire wire-IsBytes,
      length_bytes (tag_of b t) (i8_to_byte raw.workchain) raw.hash (crc16 payload) full,
      same_bytes_refl (base64.encode wire),
      from_bytes-wire,
    ),
    refl,
    refl,
    refl,
  )
