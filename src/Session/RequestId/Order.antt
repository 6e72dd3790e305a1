-- ===== src/Session/RequestId/Order.antt =====
-- What a request identifier stands for, and that its order is the order of the numbers
-- (crates/ton-connect-core/src/session_state.rs).
use Prim.Native.Nat.{compare}
use wallet_engine.Base.{
  ℕ, ◌≡◌, ◌≢◌, ◌↔◌, ◌∙◌, refl, true, false, [], ◌∷◌, arith, leb, Bool-cases, inl, inr,
}
use wallet_engine.Base.Results.{ok}
use wallet_engine.Types.Texts.{Text}
use wallet_engine.Types.Digits.{AllDigits, value, value-cons, value-nil}
use wallet_engine.Types.Decimal.{is_canonical_unsigned_decimal}
use wallet_engine.Types.Decimal.Order.{IsCanonical, cmp-value}
use wallet_engine.Session.RequestId.{
  RpcRequestId, without_zeroes, canonical, is_empty, parse, cmp, le,
}

-- The number that an identifier stands for.
abbrev pub number : RpcRequestId → ℕ
number r = value r.text

value-without_zeroes : (s : Text) → value (without_zeroes s) ≡ value s
unfolding without_zeroes
value-without_zeroes [] = refl
value-without_zeroes (c ∷ s) = ground (arith, value-cons c s, value-without_zeroes s)

without_zeroes-IsCanonical :
    (s : Text) → AllDigits s → is_empty (without_zeroes s) ≡ false → IsCanonical (without_zeroes s)
unfolding without_zeroes is_canonical_unsigned_decimal
without_zeroes-IsCanonical [] h e = cc
without_zeroes-IsCanonical (c ∷ []) h e = ground arith
without_zeroes-IsCanonical (c ∷ d ∷ s) h e = ground (arith, without_zeroes-IsCanonical (d ∷ s))

canonical-IsCanonical : (s : Text) → AllDigits s → IsCanonical (canonical s)
unfolding canonical
canonical-IsCanonical s h = elim (Bool-cases (is_empty (without_zeroes s))) [
  | inl e ↦ rw e (unfold is_canonical_unsigned_decimal in refl)
  | inr e ↦ rw e (without_zeroes-IsCanonical s h e)
]

value_of_empty : (s : Text) → is_empty s ≡ true → 0 ≡ value s
value_of_empty [] e = rw value-nil
value_of_empty (c ∷ s) e = cc

value-canonical : (s : Text) → value (canonical s) ≡ value s
unfolding canonical
value-canonical s = elim (Bool-cases (is_empty (without_zeroes s))) [
  | inl e ↦
      rw (e, value-cons, value-nil) (value_of_empty (without_zeroes s) e ∙ value-without_zeroes s)
  | inr e ↦ rw e (value-without_zeroes s)
]

-- A text is an identifier exactly when it is a nonempty text of digits.
pub parse-ok :
    (s : Text) (r : RpcRequestId)
    → (parse s ≡ ok r) ↔ ((s ≢ []) × AllDigits s × (r.text ≡ canonical s))
unfolding parse
parse-ok [] r = (λ h. cc, λ h. absurd (h.0 refl))
parse-ok (c ∷ s) r = (λ h. (λ e. cc, ground arith, ground arith), λ h. ground arith)

pub parse-IsCanonical :
    (s : Text) (r : RpcRequestId) → parse s ≡ ok r → IsCanonical r.text × (number r ≡ value s)
parse-IsCanonical s r h =
    let (_, digits, e) = (parse-ok s r).0 h in
    rw e (canonical-IsCanonical s digits, value-canonical s)

-- Leading zeroes do not make a new identifier, and the order of two identifiers is that of the
-- numbers in the texts that they were read from.
pub cmp-parse :
    (s t : Text) (a b : RpcRequestId)
    → parse s ≡ ok a
    → parse t ≡ ok b
    → cmp a b ≡ compare (value s) (value t)
unfolding cmp
cmp-parse s t a b h k =
    let (ca, va) = parse-IsCanonical s a h in
    let (cb, vb) = parse-IsCanonical t b k in rw (← va, ← vb) (cmp-value a.text b.text ca cb)

pub le-number :
    (a b : RpcRequestId)
    → IsCanonical a.text
    → IsCanonical b.text
    → le a b ≡ leb (number a) (number b)
unfolding le cmp
le-number a b h k = rw (cmp-value a.text b.text h k, le)
