-- ===== src/Address.antt =====
-- User-friendly addresses (crates/ton-connect-core/src/friendly_address.rs, and
-- `RawAccountAddress` of crates/ton-connect-core/src/signing.rs). The Base64 engine and the CRC-16
-- belong to other crates and are the parameters `base64` and `crc16`.
pub mod Slices
pub mod RoundTrip
pub mod Canonical
use wallet_engine.Base.{
  ℕ, zero, suc, ◌+◌, ◌-◌, ◌/◌, ◌%◌, Bool, true, false, ◌&&◌, not, ◌==◌, Option, none, some, List,
  [], ◌∷◌, ◌++◌, if◌then◌else◌, leb, length, get_elem?, all_of,
}
use wallet_engine.Base.Results.{Result, ok, err, ok_or, guard, ◌>>=◌, ◌>>◌}
use wallet_engine.Types.Texts.{Text}
use wallet_engine.Cell.Reader.{get_range}
use wallet_engine.Base.Bytes.{same_bytes}

-- The native integers of a workchain.
pub data ℤ : Type 0 where
  pos : ℕ → ℤ
  negsuc : ℕ → ℤ

pub record RawAccountAddress : Type 0 where
  pub workchain : ℤ
  pub hash : List ℕ

pub record FriendlyAddress : Type 0 where
  pub encoded : Text
  pub raw : RawAccountAddress
  pub bounceable : Bool
  pub test_only : Bool

pub data FriendlyAddressError : Type 0 where
  friendly_address_error : FriendlyAddressError

-- `URL_SAFE_NO_PAD`
pub record Base64 : Type 0 where
  pub encode : List ℕ → Text
  pub decode : Text → Option (List ℕ)

abbrev pub friendly_address_bytes : ℕ
friendly_address_bytes = 36

abbrev pub bounceable_tag : ℕ
bounceable_tag = 0x11

abbrev pub non_bounceable_tag : ℕ
non_bounceable_tag = 0x51

abbrev pub test_only_tag : ℕ
test_only_tag = 0x80

-- `i8::try_from`
unfoldable pub i8_try_from : ℤ → Option ℤ
i8_try_from (pos n) = if leb n 127 then some (pos n) else none
i8_try_from (negsuc n) = if leb n 127 then some (negsuc n) else none

-- `matches!(workchain, -1 | 0)`
unfoldable pub is_known : ℤ → Bool
is_known (pos n) = n == 0
is_known (negsuc n) = n == 0

-- `i8::to_be_bytes` and `i8::from_be_bytes`
unfoldable pub i8_to_byte : ℤ → ℕ
i8_to_byte (pos n) = n
i8_to_byte (negsuc n) = 255 - n

unfoldable pub i8_from_byte : ℕ → ℤ
i8_from_byte b = if leb b 127 then pos b else negsuc (255 - b)

-- `u16::to_be_bytes`
abbrev pub be_bytes : ℕ → List ℕ
be_bytes c = c / 256 ∷ c % 256 ∷ []

-- The two flags of a tag: `|=` sets its high bit, which is clear in both constants.
unfoldable pub tag_of : Bool → Bool → ℕ
tag_of bounceable test_only =
    let tag = if bounceable then bounceable_tag else non_bounceable_tag in
    if test_only then tag + test_only_tag else tag

-- `tag & TEST_ONLY_TAG != 0`, and the match on `tag & !TEST_ONLY_TAG`.
unfoldable pub tag_test_only : ℕ → Bool
tag_test_only tag = not (tag / test_only_tag % 2 == 0)

unfoldable pub tag_bounceable : ℕ → Result FriendlyAddressError Bool
tag_bounceable tag =
    let low = tag % test_only_tag in
    if low == bounceable_tag
    then ok true
    else if low == non_bounceable_tag
    then ok false
    else err friendly_address_error

module _ (base64 : Base64) (crc16 : List ℕ → ℕ) where
  unfoldable pub from_raw :
      RawAccountAddress → Bool → Bool → Result FriendlyAddressError FriendlyAddress
  from_raw raw bounceable test_only = do
    workchain ← ok_or (i8_try_from raw.workchain) friendly_address_error
    guard (is_known workchain) friendly_address_error
    let payload = tag_of bounceable test_only ∷ i8_to_byte workchain ∷ raw.hash
    ok (record {
      encoded = base64.encode (payload ++ be_bytes (crc16 payload));
      raw = raw;
      bounceable = bounceable;
      test_only = test_only;
    })

  -- After the checks of the text: the checksum and the fields.
  unfoldable pub from_bytes : Text → List ℕ → Result FriendlyAddressError FriendlyAddress
  from_bytes value bytes = do
    payload ← ok_or (get_range bytes 0 34) friendly_address_error
    checksum ← ok_or (get_range bytes 34 (length bytes)) friendly_address_error
    guard (same_bytes (be_bytes (crc16 payload)) checksum) friendly_address_error
    tag ← ok_or (get_elem? bytes 0) friendly_address_error
    bounceable ← tag_bounceable tag
    byte ← ok_or (get_elem? bytes 1) friendly_address_error
    let workchain = i8_from_byte byte
    guard (is_known workchain) friendly_address_error
    hash ← ok_or (get_range bytes 2 34) friendly_address_error
    ok (record {
      encoded = value;
      raw = record { workchain = workchain; hash = hash };
      bounceable = bounceable;
      test_only = tag_test_only tag;
    })

  -- `61` is the padding character.
  unfoldable pub try_from : Text → Result FriendlyAddressError FriendlyAddress
  try_from value = do
    guard (all_of (λ c. not (c == 61)) value) friendly_address_error
    bytes ← ok_or (base64.decode value) friendly_address_error
    guard (length bytes == friendly_address_bytes && same_bytes (base64.encode bytes) value)
        friendly_address_error
    from_bytes value bytes
