-- ===== src/Types/Decimal.antt =====
-- Unsigned decimal strings (src/types/decimal_string.rs). A `BigUint` is a natural number; its
-- text conversions belong to num-bigint, and are a parameter.
pub mod Order
pub mod RoundTrip
use wallet_engine.Base.{
  ℕ, ◌+◌, ◌≡◌, ◌≢◌, Bool, true, false, ◌&&◌, not, Option, some, List, [], ◌∷◌, all_of, ◌==◌,
  if◌then◌else◌,
}
use wallet_engine.Base.Results.{Result, err, ok_or, guard, ◌>>◌}
use wallet_engine.Types.Texts.{Text, is_ascii_digit}
use wallet_engine.Types.Digits.{AllDigits, value}

-- The slice pattern `[b'0']`, then `[first, rest @ ..]`, then `[]`.
unfoldable pub is_canonical_unsigned_decimal : Text → Bool
is_canonical_unsigned_decimal [] = false
is_canonical_unsigned_decimal (first ∷ []) =
    if first == 48 then true else is_ascii_digit first && not (first == 48)
is_canonical_unsigned_decimal (first ∷ second ∷ rest) =
    is_ascii_digit first && not (first == 48) && all_of is_ascii_digit (second ∷ rest)

-- num-bigint's `BigUint::from_str` and `to_str_radix(10)`.
pub record BigUintText : Type 0 where
  pub from_str : Text → Option ℕ
  pub to_str_radix : ℕ → Text

-- What num-bigint documents: a text of digits is read in base ten, and a number is written in base
-- ten without leading zeroes.
pub record IsBaseTen (big : BigUintText) : Type 0 where
  pub from_str-digits : (s : Text) → s ≢ [] → AllDigits s → big.from_str s ≡ some (value s)
  pub to_str_radix-canonical : (n : ℕ) → is_canonical_unsigned_decimal (big.to_str_radix n) ≡ true
  pub value-to_str_radix : (n : ℕ) → value (big.to_str_radix n) ≡ n

pub data UnsignedDecimalStringError : Type 0 where
  unsigned_decimal_string_error : UnsignedDecimalStringError

module _ (big : BigUintText) where
  unfoldable pub try_from : Text → Result UnsignedDecimalStringError ℕ
  unfolding is_canonical_unsigned_decimal
  try_from s =
      if not (is_canonical_unsigned_decimal s)
      then err unsigned_decimal_string_error
      else ok_or (big.from_str s) unsigned_decimal_string_error

  unfoldable pub to_decimal_string : ℕ → Text
  to_decimal_string n = big.to_str_radix n

-- `&a + &b`
unfoldable pub add : ℕ → ℕ → ℕ
add a b = a + b
