-- ===== src/Tests/DeepLink/Hexadecimal.antt =====
-- A hexadecimal codec with the laws that the links rely on.
use wallet_engine.Base.{
  ℕ, ◌+◌, ◌-◌, ◌*◌, ◌/◌, ◌%◌, ◌<◌, ◌≡◌, refl, subst, arith, true, ◌&&◌, Option, none, some, [], ◌∷◌,
  leb, ltb, if◌then◌else◌, length, all_of,
}
use wallet_engine.Base.Bytes.{Bytes, IsBytes}
use wallet_engine.Base.Options.{◌>>=◌, some->>=}
use wallet_engine.Types.Texts.{Text, is_ascii_digit}
use wallet_engine.Types.Utf8.{utf8, char_bytes}
use wallet_engine.DeepLink.Value.{Hex, IsHex, is_lower_hex}

abbrev pub digit : ℕ → ℕ
digit n = if ltb n 10 then 48 + n else 87 + n

abbrev pub nibble : ℕ → Option ℕ
nibble c =
    if leb 48 c && leb c 57
    then some (c - 48)
    else if leb 97 c && leb c 102
    then some (c - 87)
    else none

abbrev pub hex_encode : Bytes → Text
hex_encode [] = []
hex_encode (b ∷ bytes) = digit (b / 16 % 16) ∷ digit (b % 16) ∷ hex_encode bytes

abbrev pub hex_decode : Text → Option Bytes
hex_decode [] = some []
hex_decode (h ∷ []) = none
hex_decode (h ∷ l ∷ s) = do
  high ← nibble h
  low ← nibble l
  rest ← hex_decode s
  some ((16 * high + low) ∷ rest)

abbrev pub lower_hex : Hex
lower_hex = record { encode = hex_encode; decode = hex_decode }

nibble-digit : (n : ℕ) → n < 16 → nibble (digit n) ≡ some n
nibble-digit n h = ground arith

is_lower_hex-digit : (n : ℕ) → n < 16 → is_lower_hex (digit n) ≡ true
unfolding is_lower_hex is_ascii_digit
is_lower_hex-digit n h = ground arith

char_bytes-digit : (n : ℕ) → n < 16 → char_bytes (digit n) ≡ digit n ∷ []
unfolding char_bytes
char_bytes-digit n h = ground arith

nibble-bounds : (c n : ℕ) → nibble c ≡ some n → (n < 16) × (char_bytes c ≡ c ∷ [])
unfolding char_bytes
nibble-bounds c n h = (ground arith, ground arith)

utf8-hex_encode : (bytes : Bytes) → utf8 (hex_encode bytes) ≡ hex_encode bytes
unfolding utf8
utf8-hex_encode [] = refl
utf8-hex_encode (b ∷ bytes) = rw (
  char_bytes-digit (b / 16 % 16) (omega arith),
  char_bytes-digit (b % 16) (omega arith),
  utf8-hex_encode bytes,
)

length-hex_encode : (bytes : Bytes) → length (hex_encode bytes) ≡ 2 * length bytes
length-hex_encode [] = refl
length-hex_encode (b ∷ bytes) = let rest = length-hex_encode bytes in omega arith

hex_encode-lower : (bytes : Bytes) → all_of is_lower_hex (hex_encode bytes) ≡ true
hex_encode-lower [] = refl
hex_encode-lower (b ∷ bytes) = rw (
  is_lower_hex-digit (b / 16 % 16) (omega arith),
  is_lower_hex-digit (b % 16) (omega arith),
  hex_encode-lower bytes,
)

hex_decode-encode : (bytes : Bytes) → IsBytes bytes → hex_decode (hex_encode bytes) ≡ some bytes
hex_decode-encode [] are = refl
hex_decode-encode (b ∷ bytes) (is, are) =
    let whole : 16 * (b / 16 % 16) + b % 16 ≡ b = omega arith in
    rw (
      nibble-digit (b / 16 % 16) (omega arith),
      nibble-digit (b % 16) (omega arith),
      hex_decode-encode bytes are,
      whole,
    )

hex_decode-bytes :
    (text : Text) (bytes : Bytes)
    → hex_decode text ≡ some bytes
    → IsBytes bytes × (length (utf8 text) ≡ 2 * length bytes)
unfolding utf8
hex_decode-bytes [] [] is = (tt, refl)
hex_decode-bytes [] (b ∷ bytes) is = absurd cc
hex_decode-bytes (h ∷ []) bytes is = absurd cc
hex_decode-bytes (h ∷ l ∷ s) bytes is =
    let (high, of_high, is) = some->>= (nibble h) _ is in
    let (low, of_low, is) = some->>= (nibble l) _ is in
    let (rest, of_rest, is) = some->>= (hex_decode s) _ is in
    let (high_small, h_one) = nibble-bounds h high of_high in
    let (low_small, l_one) = nibble-bounds l low of_low in
    let (are, twice) = hex_decode-bytes s rest of_rest in
    let whole : (16 * high + low) ∷ rest ≡ bytes = cc in
    subst (λ all. IsBytes all × (length (utf8 (h ∷ l ∷ s)) ≡ 2 * length all)) whole
      ((omega arith, are), rw (h_one, l_one) (omega arith))

pub lower_hex-IsHex : IsHex lower_hex
lower_hex-IsHex = record {
  length-encode = λ bytes. rw (utf8-hex_encode bytes) (length-hex_encode bytes);
  encode-lower = λ bytes. rw (utf8-hex_encode bytes) (hex_encode-lower bytes);
  decode-encode = hex_decode-encode;
  decode-bytes = hex_decode-bytes;
}
