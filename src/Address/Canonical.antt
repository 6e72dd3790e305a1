-- ===== src/Address/Canonical.antt =====
-- The texts that are accepted (crates/ton-connect-core/src/friendly_address.rs).
use wallet_engine.Base.{
  ℕ, ◌<◌, ◌≤◌, ◌≡◌, refl, ap, arith, Bool, true, false, not, ◌&&◌, ◌==◌, ==_iff, some, List, [],
  ◌∷◌, length, take, drop, all_of, length-take, take-append-drop, take_of_le, length-drop, inl, inr,
}
use wallet_engine.Base.Results.{ok}
use wallet_engine.Base.Holds.{Holds, holds, Holds->>=, Holds-guard, Holds-ok_or, Holds-of-ok}
use wallet_engine.Types.Texts.{Text}
use wallet_engine.Cell.Reader.{get_range}
use wallet_engine.Base.Bytes.{IsBytes, same_bytes, same_bytes-eq}
use wallet_engine.Address.{
  ℤ, pos, negsuc, FriendlyAddress, friendly_address_error, Base64, is_known, i8_to_byte,
  i8_from_byte, be_bytes, tag_of, tag_test_only, tag_bounceable, from_raw, from_bytes, try_from,
}
use wallet_engine.Address.RoundTrip.{IsKnown, known-try}

is_known-IsKnown : (w : ℤ) → is_known w ≡ true → IsKnown w
unfolding is_known
is_known-IsKnown (pos n) p = inl (ap pos ((==_iff n 0).0 p))
is_known-IsKnown (negsuc n) p = inr (ap negsuc ((==_iff n 0).0 p))

to_byte-from_byte : (b : ℕ) → b < 256 → i8_to_byte (i8_from_byte b) ≡ b
unfolding i8_to_byte i8_from_byte
to_byte-from_byte b small = ground arith

tag_of-flags :
    (tag : ℕ) (b : Bool)
    → tag < 256
    → tag_bounceable tag ≡ ok b
    → tag_of b (tag_test_only tag) ≡ tag
unfolding tag_of tag_test_only tag_bounceable
tag_of-flags tag b small is = ground arith

pub and_split : (a b : Bool) → (a && b) ≡ true → (a ≡ true) × (b ≡ true)
and_split true b p = (refl, p)
and_split false b p = absurd cc

module _ (tag byte : ℕ) (rest : List ℕ) (full : length rest ≡ 34) where
  range_payload : get_range (tag ∷ byte ∷ rest) 0 34 ≡ some (tag ∷ byte ∷ take 32 rest)
  unfolding get_range
  range_payload = rw full

  range_checksum :
      get_range (tag ∷ byte ∷ rest) 34 (length (tag ∷ byte ∷ rest)) ≡ some (drop 32 rest)
  unfolding get_range
  range_checksum =
      let short : length (drop 32 rest) ≤ 2 = omega (arith, full, length-drop 32 rest) in
      rw (full, take_of_le 2 (drop 32 rest) short)

  range_hash : get_range (tag ∷ byte ∷ rest) 2 34 ≡ some (take 32 rest)
  unfolding get_range
  range_hash = rw full

-- What makes `value` the text of the address `f`.
pub record IsCanonical (base64 : Base64) (crc16 : List ℕ → ℕ) (value : Text) (f : FriendlyAddress)
    : Type 0 where
  pub encoded_kept : f.encoded ≡ value
  pub hash_full : length f.raw.hash ≡ 32
  pub chain_known : IsKnown f.raw.workchain
  pub written : from_raw base64 crc16 f.raw f.bounceable f.test_only ≡ ok f

module _ (base64 : Base64) (crc16 : List ℕ → ℕ) (value : Text) where
  from_raw-fields :
      (tag byte : ℕ) (rest : List ℕ) (b : Bool)
      → tag < 256
      → byte < 256
      → base64.encode (tag ∷ byte ∷ rest) ≡ value
      → be_bytes (crc16 (tag ∷ byte ∷ take 32 rest)) ≡ drop 32 rest
      → tag_bounceable tag ≡ ok b
      → is_known (i8_from_byte byte) ≡ true
      → from_raw base64 crc16
          (record { workchain = i8_from_byte byte; hash = take 32 rest })
          b
          (tag_test_only tag)
        ≡ ok (record {
          encoded = value;
          raw = record { workchain = i8_from_byte byte; hash = take 32 rest };
          bounceable = b;
          test_only = tag_test_only tag;
        })
  unfolding from_raw
  from_raw-fields tag byte rest b tag_small byte_small same crc is known = rw (
    known-try (i8_from_byte byte) (is_known-IsKnown (i8_from_byte byte) known),
    known,
    tag_of-flags tag b tag_small is,
    to_byte-from_byte byte byte_small,
    crc,
    take-append-drop 32 rest,
    same,
  )

  from_bytes-IsCanonical :
      (bytes : List ℕ)
      → length bytes ≡ 36
      → IsBytes bytes
      → base64.encode bytes ≡ value
      → Holds (IsCanonical base64 crc16 value) (from_bytes base64 crc16 value bytes)
  unfolding from_bytes
  from_bytes-IsCanonical [] full small same = absurd (omega arith)
  from_bytes-IsCanonical (tag ∷ []) full small same = absurd (omega arith)
  from_bytes-IsCanonical (tag ∷ byte ∷ rest) full (tag_small, (byte_small, _)) same =
      let enough : length rest ≡ 34 = omega arith in
      rw
        (
          range_payload tag byte rest enough,
          range_checksum tag byte rest enough,
          range_hash tag byte rest enough,
        )
        (Holds-guard _ _ _ _ λ crc. Holds->>= _ (tag_bounceable tag) _ λ b is.
          Holds-guard _ (is_known (i8_from_byte byte)) _ _ λ known. holds (record {
            encoded_kept = refl;
            hash_full = omega (arith, length-take 32 rest);
            chain_known = is_known-IsKnown (i8_from_byte byte) known;
            written =
                from_raw-fields tag byte rest b tag_small byte_small same
                  (same_bytes-eq _ (drop 32 rest) crc) is known;
          }))

  try_from-Holds :
      ((s : Text) (bs : List ℕ) → base64.decode s ≡ some bs → IsBytes bs)
      → Holds (IsCanonical base64 crc16 value) (try_from base64 crc16 value)
  unfolding try_from
  try_from-Holds bytes_decoded =
      Holds-guard _ (all_of (λ c. not (c == 61)) value) friendly_address_error _ λ _.
        Holds-ok_or _ (base64.decode value) _ _ λ bytes decoded.
          Holds-guard _ (length bytes == 36 && same_bytes (base64.encode bytes) value) _ _ λ test.
            let (size, same) =
              and_split (length bytes == 36) (same_bytes (base64.encode bytes) value) test in
            from_bytes-IsCanonical bytes ((==_iff (length bytes) 36).0 size)
              (bytes_decoded value bytes decoded) (same_bytes-eq (base64.encode bytes) value same)

  -- A text that is read as an address is the one that the address is written as: its account has a
  -- hash of 32 bytes and a known workchain, and writing it with its flags gives the text back; the
  -- Base64 engine decodes to bytes.
  pub try_from-IsCanonical :
      (f : FriendlyAddress)
      → ((s : Text) (bs : List ℕ) → base64.decode s ≡ some bs → IsBytes bs)
      → try_from base64 crc16 value ≡ ok f
      → IsCanonical base64 crc16 value f
  try_from-IsCanonical f bytes_decoded =
      Holds-of-ok (IsCanonical base64 crc16 value) (try_from base64 crc16 value) f
        (try_from-Holds bytes_decoded)
