-- ===== src/Types/Digits.antt =====
-- The number that a text of decimal digits stands for, and what its length and its first digit say
-- of that number.
use wallet_engine.Base.{
  ℕ, ◌+◌, ◌-◌, ◌*◌, ◌^◌, ◌≤◌, ◌<◌, ◌≡◌, refl, ap, subst, ◌∙◌, true, [], ◌∷◌, arith, length, all_of,
}
use wallet_engine.Types.Texts.{Text, is_ascii_digit}
use Prim.Native.Nat.{compare, Ordering}
use native.Mathlib.Nat.{pow-suc}

-- `Ordering::then_with`
abbrev pub then_with : Ordering → Ordering → Ordering
then_with Ordering.lt o = Ordering.lt
then_with Ordering.eq o = o
then_with Ordering.gt o = Ordering.gt

abbrev pub AllDigits : Text → Type 0
AllDigits s = all_of is_ascii_digit s ≡ true

unfoldable pub value_from : ℕ → Text → ℕ
value_from acc [] = acc
value_from acc (c ∷ s) = value_from (acc * 10 + (c - 48)) s

unfoldable pub value : Text → ℕ
value s = value_from 0 s

value_from-eq : (acc : ℕ) (s : Text) → value_from acc s ≡ acc * 10 ^ length s + value_from 0 s
unfolding value_from
value_from-eq acc [] = omega arith
value_from-eq acc (c ∷ s) = omega (
  arith,
  value_from-eq (acc * 10 + (c - 48)) s,
  value_from-eq (0 + (c - 48)) s,
  ap (λ (p : ℕ). acc * p) (pow-suc 10 (length s)),
)

-- The first digit counts for ten to the power of how many follow it.
pub value-cons : (c : ℕ) (s : Text) → value (c ∷ s) ≡ (c - 48) * 10 ^ length s + value s
unfolding value value_from
value-cons c s = value_from-eq (0 + (c - 48)) s ∙ omega arith

pub value-nil : value [] ≡ 0
unfolding value value_from
value-nil = refl

digit-range : (c : ℕ) → is_ascii_digit c ≡ true → (48 ≤ c) × (c ≤ 57)
unfolding is_ascii_digit
digit-range c h = ground arith

pub AllDigits-head : (c : ℕ) (s : Text) → AllDigits (c ∷ s) → (48 ≤ c) × (c ≤ 57)
AllDigits-head c s h = digit-range c (ground arith)

pub AllDigits-tail : (c : ℕ) (s : Text) → AllDigits (c ∷ s) → AllDigits s
AllDigits-tail c s h = ground arith

pub value-lt : (s : Text) → AllDigits s → value s < 10 ^ length s
value-lt [] h = omega (arith, value-nil)
value-lt (c ∷ s) h =
    let (lo, hi) = AllDigits-head c s h in
    grind (arith, value-cons c s, value-lt s (AllDigits-tail c s h), pow-suc 10 (length s))

pub le-value : (c : ℕ) (s : Text) → 49 ≤ c → 10 ^ length s ≤ value (c ∷ s)
le-value c s h = grind (arith, value-cons c s)

-- `str::cmp`: the order of the bytes, which for digits are the code points.
unfoldable pub lex_cmp : Text → Text → Ordering
lex_cmp [] [] = Ordering.eq
lex_cmp [] (y ∷ ys) = Ordering.lt
lex_cmp (x ∷ xs) [] = Ordering.gt
lex_cmp (x ∷ xs) (y ∷ ys) = then_with (compare x y) (lex_cmp xs ys)

digit_order : (d e p v w : ℕ) → v < p → w < p → d < e → d * p + v < e * p + w
digit_order d e p v w hv hw h = grind arith

-- Of two digit texts of one length the order of the texts is the order of the numbers.
pub lex_cmp-value :
    (s t : Text)
    → AllDigits s
    → AllDigits t
    → length s ≡ length t
    → lex_cmp s t ≡ compare (value s) (value t)
unfolding lex_cmp
lex_cmp-value [] [] h k e = rw value-nil
lex_cmp-value [] (y ∷ ys) h k e = absurd (omega arith)
lex_cmp-value (x ∷ xs) [] h k e = absurd (omega arith)
lex_cmp-value (x ∷ xs) (y ∷ ys) h k e =
    let (lx, _) = AllDigits-head x xs h in
    let (ly, _) = AllDigits-head y ys k in
    let hx = AllDigits-tail x xs h in
    let ky = AllDigits-tail y ys k in
    let n : length xs ≡ length ys = omega arith in
    rw (value-cons, value-cons, n, lex_cmp-value xs ys hx ky n)
      (ground (
        arith,
        digit_order (x - 48) (y - 48) (10 ^ length ys) (value xs) (value ys),
        digit_order (y - 48) (x - 48) (10 ^ length ys) (value ys) (value xs),
        value-lt ys ky,
        subst (λ m. value xs < 10 ^ m) n (value-lt xs hx),
      ))
