-- ===== src/Base/Bytes.antt =====
-- Byte strings: their equality test, and the exclusive or of Rust's zipped loops.
use Prim.Native.Nat.{bit_xor}
use wallet_engine.Base.{
  ℕ, zero, suc, ◌<◌, ◌≤◌, ◌≡◌, refl, arith, Bool, true, false, ◌&&◌, ◌==◌, if◌then◌else◌, ==_refl,
  ==_iff, List, [], ◌∷◌, length, All,
}

abbrev pub Bytes : Type 0
Bytes = List ℕ

abbrev pub IsBytes : Bytes → Type 0
IsBytes = All (λ b. b < 256)

abbrev pub same_bytes : Bytes → Bytes → Bool
same_bytes [] [] = true
same_bytes (x ∷ xs) (y ∷ ys) = x == y && same_bytes xs ys
same_bytes _ _ = false

pub same_bytes_refl : (xs : Bytes) → same_bytes xs xs ≡ true
same_bytes_refl [] = refl
same_bytes_refl (x ∷ xs) = rw (==_refl x, same_bytes_refl xs)

pub same_bytes-eq : (xs ys : Bytes) → same_bytes xs ys ≡ true → xs ≡ ys
same_bytes-eq [] [] p = refl
same_bytes-eq [] (y ∷ ys) p = absurd cc
same_bytes-eq (x ∷ xs) [] p = absurd cc
same_bytes-eq (x ∷ xs) (y ∷ ys) p = ground (arith, same_bytes-eq xs ys, ==_iff x y)

-- `*output = value ^ mask` over the zip of both.
unfoldable pub xor_bytes : Bytes → Bytes → Bytes
xor_bytes (v ∷ vs) (m ∷ ms) = bit_xor v m ∷ xor_bytes vs ms
xor_bytes _ _ = []

-- The test at every number under a bound.
passes : (ℕ → Bool) → ℕ → Bool
passes test zero = true
passes test (suc b) = if test b then passes test b else false

passes_lem : (test : ℕ → Bool) (bound b : ℕ) → passes test bound ≡ true → b < bound → test b ≡ true
unfolding passes
passes_lem test zero b h below = absurd (omega arith)
passes_lem test (suc bound) b h below = ground (arith, passes_lem test bound b)

masks_back : ℕ → ℕ → Bool
masks_back v m = v == bit_xor (bit_xor v m) m

byte_table : passes (λ v. passes (masks_back v) 256) 256 ≡ true
unfolding passes masks_back
byte_table = refl

bit_xor_twice : (v m : ℕ) → v < 256 → m < 256 → v ≡ bit_xor (bit_xor v m) m
unfolding masks_back
bit_xor_twice v m small mask =
    let row = passes_lem (λ v. passes (masks_back v) 256) 256 v byte_table small in
    (==_iff v _).0 (passes_lem (masks_back v) 256 m row mask)

-- A mask that is applied twice leaves what it was applied to.
pub xor_bytes_twice :
    (vs ms : Bytes)
    → IsBytes vs
    → IsBytes ms
    → length vs ≤ length ms
    → xor_bytes (xor_bytes vs ms) ms ≡ vs
unfolding xor_bytes
xor_bytes_twice [] ms p q fits = refl
xor_bytes_twice (v ∷ vs) [] p q fits = absurd (omega arith)
xor_bytes_twice (v ∷ vs) (m ∷ ms) (p, ps) (q, qs) fits =
    rw (← bit_xor_twice v m p q, xor_bytes_twice vs ms ps qs (omega arith))
