-- ===== src/Types/Decimal/RoundTrip.antt =====
-- Parsing and printing decimal strings (src/types/decimal_string.rs).
use wallet_engine.Base.{ℕ, ◌≡◌, ◌↔◌, sym, some, arith, ◌∙◌}
use wallet_engine.Base.Results.{ok}
use wallet_engine.Types.Texts.{Text}
use wallet_engine.Types.Digits.{value}
use wallet_engine.Types.Decimal.{
  BigUintText, IsBaseTen, is_canonical_unsigned_decimal, try_from, to_decimal_string,
}
use wallet_engine.Types.Decimal.Order.{IsCanonical, IsCanonical-AllDigits, IsCanonical-unique}

module _ (big : BigUintText) (base : IsBaseTen big) where
  IsCanonical-from_str : (s : Text) → IsCanonical s → big.from_str s ≡ some (value s)
  unfolding is_canonical_unsigned_decimal
  IsCanonical-from_str s h = base.from_str-digits s (λ e. ground arith) (IsCanonical-AllDigits s h)

  -- A text is accepted exactly when it is canonical, and it is read as its value in base ten.
  try_from-ok : (s : Text) (n : ℕ) → (try_from big s ≡ ok n) ↔ (IsCanonical s × (value s ≡ n))
  unfolding try_from
  try_from-ok s n =
      (λ h. ground (arith, IsCanonical-from_str s), λ h. ground (arith, IsCanonical-from_str s))

  -- A text is read as a number exactly when it is what printing that number gives.
  pub try_from-to_decimal_string :
      (s : Text) (n : ℕ) → (try_from big s ≡ ok n) ↔ (to_decimal_string big n ≡ s)
  unfolding to_decimal_string
  try_from-to_decimal_string s n =
      let canon = base.to_str_radix-canonical n in
      let val = base.value-to_str_radix n in
      (
        λ h.
            let (c, v) = (try_from-ok s n).0 h in
            IsCanonical-unique (big.to_str_radix n) s canon c (val ∙ sym v),
        λ h. rw (← h) ((try_from-ok (big.to_str_radix n) n).1 (canon, val)),
      )
