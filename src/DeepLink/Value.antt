-- ===== src/DeepLink/Value.antt =====
-- Identifiers of a TON Connect link (crates/ton-connect-core/src/value.rs). The hexadecimal codec
-- belongs to the hex crate, and is a parameter.
use wallet_engine.Base.{
  ℕ, ◌*◌, ◌≡◌, Bool, true, false, ◌&&◌, ◌||◌, Option, some, List, [], ◌∷◌, ◌==◌, leb, if◌then◌else◌,
  length, all_of,
}
use wallet_engine.Base.Bytes.{Bytes, IsBytes}
use wallet_engine.Base.Results.{Result, ok, err, ok_or, guard, ◌>>=◌, ◌>>◌}
use wallet_engine.Types.Texts.{Text, is_ascii_digit}
use wallet_engine.Types.Utf8.{utf8}
use wallet_engine.Types.Value.{ValueError, invalid_client_id, invalid_trace_id}

-- `hex::encode` and `hex::decode_to_slice`
pub record Hex : Type 0 where
  pub encode : Bytes → Text
  pub decode : Text → Option Bytes

pub record ClientId : Type 0 where
  pub bytes : Bytes

pub record TraceId : Type 0 where
  pub text : Text

-- `byte.is_ascii_digit() || (b'a'..=b'f').contains(byte)`
unfoldable pub is_lower_hex : ℕ → Bool
is_lower_hex b = is_ascii_digit b || (leb b'a' b && leb b b'f')

-- `u8::is_ascii_hexdigit`
unfoldable pub is_ascii_hexdigit : ℕ → Bool
is_ascii_hexdigit b = is_ascii_digit b || (leb b'a' b && leb b b'f') || (leb b'A' b && leb b b'F')

-- What the hex crate documents: two digits in lower case for each byte, which are read back.
pub record IsHex (hex : Hex) : Type 0 where
  pub length-encode : (bytes : Bytes) → length (utf8 (hex.encode bytes)) ≡ 2 * length bytes
  pub encode-lower : (bytes : Bytes) → all_of is_lower_hex (utf8 (hex.encode bytes)) ≡ true
  pub decode-encode : (bytes : Bytes) → IsBytes bytes → hex.decode (hex.encode bytes) ≡ some bytes
  pub decode-bytes :
      (text : Text) (bytes : Bytes)
      → hex.decode text ≡ some bytes
      → IsBytes bytes × (length (utf8 text) ≡ 2 * length bytes)

module _ (hex : Hex) where
  -- `ClientId::fmt`
  unfoldable pub client_id_text : ClientId → Text
  client_id_text id = hex.encode id.bytes

  -- `ClientId::from_str`
  unfoldable pub client_id_from_str : Text → Result ValueError ClientId
  unfolding is_lower_hex
  client_id_from_str value = do
    guard (length (utf8 value) == 64 && all_of is_lower_hex (utf8 value)) invalid_client_id
    bytes ← ok_or (hex.decode value) invalid_client_id
    ok (record { bytes = bytes })

-- A character before the parts of the text after it.
unfoldable pub before_parts : ℕ → List Text → List Text
before_parts c [] = (c ∷ []) ∷ []
before_parts c (part ∷ parts) = (c ∷ part) ∷ parts

-- `str::split` at a character.
unfoldable pub split : ℕ → Text → List Text
unfolding before_parts
split at [] = [] ∷ []
split at (c ∷ s) = let rest = split at s in if c == at then [] ∷ rest else before_parts c rest

-- The loop over the expected lengths, and the test that no part is left.
unfoldable pub has_lengths : List ℕ → List Text → Bool
unfolding is_ascii_hexdigit
has_lengths [] [] = true
has_lengths [] (part ∷ parts) = false
has_lengths (expected ∷ lengths) [] = false
has_lengths (expected ∷ lengths) (part ∷ parts) =
    length (utf8 part) == expected
    && all_of is_ascii_hexdigit (utf8 part)
    && has_lengths lengths parts

unfoldable pub valid_trace_id : Text → Bool
unfolding split has_lengths
valid_trace_id value = has_lengths (8 ∷ 4 ∷ 4 ∷ 4 ∷ 12 ∷ []) (split b'-' value)

-- `TraceId::try_from`
unfoldable pub trace_id_try_from : Text → Result ValueError TraceId
unfolding valid_trace_id
trace_id_try_from value =
    if valid_trace_id value then ok (record { text = value }) else err invalid_trace_id
