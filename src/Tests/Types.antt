-- ===== src/Tests/Types.antt =====
-- Runs of the boundary values, and their theorems at concrete inputs (src/types, src/domain).
use wallet_engine.Base.{
  ℕ, zero, suc, ◌+◌, ◌-◌, ◌*◌, ◌/◌, ◌%◌, ◌≤◌, ◌<◌, ◌≡◌, ◌↔◌, refl, ap, true, false, not, some, [],
  ◌∷◌, ◌++◌, arith, length, length-append, all_of, ltb, if◌then◌else◌, ◌^◌, Bool-cases, inl, inr,
}
use wallet_engine.Base.Results.{ok}
use native.Mathlib.Nat.{pow-suc}
use wallet_engine.Types.Texts.{
  Text, codes, is_ascii_digit, is_control, is_whitespace, trim, trim_start, trim_end, cons_trimmed,
}
use wallet_engine.Types.Digits.{AllDigits, value, value-cons, value-nil}
use wallet_engine.Types.Decimal.{
  BigUintText, IsBaseTen, is_canonical_unsigned_decimal, try_from, to_decimal_string,
}
use wallet_engine.Types.Decimal.Order.{IsCanonical}
use wallet_engine.Types.Decimal.RoundTrip.{try_from-to_decimal_string}
use wallet_engine.Domain.Diagnostic.{bounded_diagnostic, without_control}
use wallet_engine.Domain.Diagnostic.Shape.{bounded_diagnostic_shape}

-- A base-ten printer and reader, as num-bigint documents them.
print : ℕ → ℕ → Text
print zero n = []
print (suc fuel) n =
    let rest = print fuel (n / 10) in
    if ltb n 10 then (48 + n) ∷ [] else rest ++ ((48 + n % 10) ∷ [])

one_more : (n : ℕ) → n + 1 ≡ suc n
one_more n = omega arith

digit_of : (d : ℕ) → d < 10 → is_ascii_digit (48 + d) ≡ true
unfolding is_ascii_digit
digit_of d h = ground arith

AllDigits-snoc :
    (s : Text) (c : ℕ) → is_ascii_digit c ≡ true → AllDigits s → AllDigits (s ++ (c ∷ []))
AllDigits-snoc [] c h k = ground arith
AllDigits-snoc (d ∷ s) c h k = ground (arith, AllDigits-snoc s c h)

value-snoc : (s : Text) (c : ℕ) → value (s ++ (c ∷ [])) ≡ value s * 10 + (c - 48)
value-snoc [] c = ground (arith, value-cons c [], value-nil)
value-snoc (d ∷ s) c = omega (
  arith,
  value-cons d (s ++ (c ∷ [])),
  value-cons d s,
  value-snoc s c,
  ap (λ (n : ℕ). (d - 48) * 10 ^ n) (length-append s (c ∷ [])),
  ap (λ (n : ℕ). (d - 48) * 10 ^ n) (one_more (length s)),
  ap (λ (p : ℕ). (d - 48) * p) (pow-suc 10 (length s)),
)

value-print : (fuel n : ℕ) → n < fuel → value (print fuel n) ≡ n
unfolding print
value-print zero n h = absurd (omega arith)
value-print (suc fuel) n h = ground (
  arith,
  value-cons (48 + n) [],
  value-nil,
  value-snoc (print fuel (n / 10)) (48 + n % 10),
  value-print fuel (n / 10),
)

-- A nonempty text of digits that does not begin with zero.
abbrev Significant : Text → Type 0
Significant [] = ⊥
Significant (c ∷ s) = (49 ≤ c) × (c ≤ 57) × AllDigits s

Significant-snoc :
    (s : Text) (c : ℕ) → is_ascii_digit c ≡ true → Significant s → Significant (s ++ (c ∷ []))
Significant-snoc [] c h k = absurd k
Significant-snoc (d ∷ s) c h k = (k.0, k.1, AllDigits-snoc s c h k.2)

Significant-print : (fuel n : ℕ) → 1 ≤ n → n < fuel → Significant (print fuel n)
unfolding print
Significant-print zero n p h = absurd (omega arith)
Significant-print (suc fuel) n p h = elim (Bool-cases (ltb n 10)) [
  | inl small ↦ rw small (ground arith, ground arith, refl)
  | inr big ↦ rw big (
      Significant-snoc (print fuel (n / 10)) (48 + n % 10) (digit_of (n % 10) (omega arith))
        (Significant-print fuel (n / 10) (ground arith) (ground arith)))
]

Significant-IsCanonical : (s : Text) → Significant s → IsCanonical s
unfolding is_canonical_unsigned_decimal is_ascii_digit
Significant-IsCanonical [] h = absurd h
Significant-IsCanonical (c ∷ []) h = ground arith
Significant-IsCanonical (c ∷ d ∷ s) h = ground arith

print-IsCanonical : (n : ℕ) → IsCanonical (print (suc n) n)
print-IsCanonical zero = unfold print is_canonical_unsigned_decimal is_ascii_digit in refl
print-IsCanonical (suc n) =
    Significant-IsCanonical (print (suc (suc n)) (suc n))
      (Significant-print (suc (suc n)) (suc n) (omega arith) (omega arith))

abbrev base_ten : BigUintText
base_ten = record { from_str = λ s. some (value s); to_str_radix = λ n. print (suc n) n }

base_ten-IsBaseTen : IsBaseTen base_ten
base_ten-IsBaseTen = record {
  from_str-digits = λ s h k. refl;
  to_str_radix-canonical = print-IsCanonical;
  value-to_str_radix = λ n. value-print (suc n) n (omega arith);
}

try_from-to_decimal_string_example :
    (try_from base_ten (codes "120") ≡ ok 120) ↔ (to_decimal_string base_ten 120 ≡ codes "120")
try_from-to_decimal_string_example =
    try_from-to_decimal_string base_ten base_ten-IsBaseTen (codes "120") 120

refuses_leading_zero : is_canonical_unsigned_decimal (codes "01") ≡ false
unfolding is_canonical_unsigned_decimal is_ascii_digit
refuses_leading_zero = refl

bounded_diagnostic_run : bounded_diagnostic (9 ∷ 65 ∷ 10 ∷ 66 ∷ 32 ∷ []) ≡ codes "A B"
unfolding bounded_diagnostic without_control is_control trim trim_start trim_end cons_trimmed
    is_whitespace
bounded_diagnostic_run = refl

bounded_diagnostic_shape_example :
    (length (bounded_diagnostic (9 ∷ 65 ∷ [])) ≤ 512)
    × (all_of (λ c. not (is_control c)) (bounded_diagnostic (9 ∷ 65 ∷ [])) ≡ true)
    × (trim (bounded_diagnostic (9 ∷ 65 ∷ [])) ≡ bounded_diagnostic (9 ∷ 65 ∷ []))
bounded_diagnostic_shape_example = bounded_diagnostic_shape (9 ∷ 65 ∷ [])
