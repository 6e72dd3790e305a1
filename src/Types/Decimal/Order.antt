-- ===== src/Types/Decimal/Order.antt =====
-- Of canonical decimal texts, length and then text order is the order of the numbers
-- (src/types/decimal_string.rs; the order of crates/ton-connect-core/src/session_state.rs).
use Prim.Native.Nat.{compare, Ordering}
use native.Mathlib.Nat.{pow-suc, le_refl}
use wallet_engine.Base.{ℕ, zero, suc, ◌-◌, ◌^◌, ◌≤◌, ◌<◌, ◌≡◌, refl, true, [], ◌∷◌, arith, length}
use wallet_engine.Types.Texts.{Text, is_ascii_digit}
use wallet_engine.Types.Digits.{
  AllDigits, value, then_with, lex_cmp, lex_cmp-value, value-lt, le-value,
}
use wallet_engine.Types.Decimal.{is_canonical_unsigned_decimal}

abbrev pub IsCanonical : Text → Type 0
IsCanonical s = is_canonical_unsigned_decimal s ≡ true

pub IsCanonical-AllDigits : (s : Text) → IsCanonical s → AllDigits s
unfolding is_canonical_unsigned_decimal is_ascii_digit
IsCanonical-AllDigits [] h = refl
IsCanonical-AllDigits (c ∷ []) h = ground arith
IsCanonical-AllDigits (c ∷ d ∷ s) h = ground arith

pub IsCanonical-length : (s : Text) → IsCanonical s → 1 ≤ length s
unfolding is_canonical_unsigned_decimal
IsCanonical-length [] h = cc
IsCanonical-length (c ∷ s) h = omega arith

-- A canonical text of two digits or more stands for a number with as many digits.
IsCanonical-le-value :
    (s : Text) (n : ℕ) → IsCanonical s → length s ≡ suc (suc n) → 10 ^ suc n ≤ value s
unfolding is_canonical_unsigned_decimal is_ascii_digit
IsCanonical-le-value [] n h e = absurd (omega arith)
IsCanonical-le-value (c ∷ []) n h e = absurd (omega arith)
IsCanonical-le-value (c ∷ d ∷ s) n h e =
    let k : length (d ∷ s) ≡ suc n = omega arith in rw (← k) (le-value c (d ∷ s) (ground arith))

pow_mono : (a b : ℕ) → a ≤ b → 10 ^ a ≤ 10 ^ b
pow_mono zero zero h = le_refl _
pow_mono (suc a) zero h = absurd (omega arith)
pow_mono zero (suc b) h = grind (arith, pow_mono 0 b (omega arith), pow-suc 10 b)
pow_mono (suc a) (suc b) h = omega (arith, pow_mono a b (omega arith), pow-suc 10 a, pow-suc 10 b)

-- The shorter canonical text stands for the smaller number.
pub value-lt_of_length :
    (s t : Text) → IsCanonical s → IsCanonical t → length s < length t → value s < value t
value-lt_of_length s t h k l =
    let two : length t ≡ suc (suc (length t - 2)) = omega (arith, IsCanonical-length s h) in
    omega (
      arith,
      value-lt s (IsCanonical-AllDigits s h),
      pow_mono (length s) (suc (length t - 2)) (omega arith),
      IsCanonical-le-value t (length t - 2) k two,
    )

pub cmp-value :
    (s t : Text)
    → IsCanonical s
    → IsCanonical t
    → then_with (compare (length s) (length t)) (lex_cmp s t) ≡ compare (value s) (value t)
cmp-value s t h k = ground (
  arith,
  value-lt_of_length s t h k,
  value-lt_of_length t s k h,
  lex_cmp-value s t (IsCanonical-AllDigits s h) (IsCanonical-AllDigits t k),
)

lex_cmp-eq : (s t : Text) → lex_cmp s t ≡ Ordering.eq → s ≡ t
unfolding lex_cmp
lex_cmp-eq [] [] h = refl
lex_cmp-eq [] (y ∷ ys) h = cc
lex_cmp-eq (x ∷ xs) [] h = cc
lex_cmp-eq (x ∷ xs) (y ∷ ys) h = ground (arith, lex_cmp-eq xs ys)

-- A number has one canonical text.
pub IsCanonical-unique : (s t : Text) → IsCanonical s → IsCanonical t → value s ≡ value t → s ≡ t
IsCanonical-unique s t h k e = ground (arith, cmp-value s t h k, lex_cmp-eq s t)
