-- ===== src/Types/Texts/Trim.antt =====
-- What `trim` leaves of a text.
use wallet_engine.Base.{
  ℕ, ◌≤◌, ◌≡◌, refl, Bool, true, false, [], ◌∷◌, arith, length, all_of, Bool-cases, inl, inr,
}
use wallet_engine.Types.Texts.{Text, is_whitespace, trim_start, trim_end, cons_trimmed, trim}

-- The text is empty or begins with a character that `trim` keeps.
abbrev BeginsTrimmed : Text → Type 0
BeginsTrimmed [] = Unit {0}
BeginsTrimmed (c ∷ s) = is_whitespace c ≡ false

trim_start-BeginsTrimmed : (s : Text) → BeginsTrimmed (trim_start s)
unfolding trim_start
trim_start-BeginsTrimmed [] = tt
trim_start-BeginsTrimmed (c ∷ s) = elim (Bool-cases (is_whitespace c)) [
  | inl e ↦ rw e (trim_start-BeginsTrimmed s)
  | inr e ↦ rw e e
]

trim_start_of_BeginsTrimmed : (s : Text) → BeginsTrimmed s → trim_start s ≡ s
unfolding trim_start
trim_start_of_BeginsTrimmed [] h = refl
trim_start_of_BeginsTrimmed (c ∷ s) h = rw h

cons_trimmed-BeginsTrimmed :
    (c : ℕ) (r : Text) → is_whitespace c ≡ false → BeginsTrimmed (cons_trimmed c r)
unfolding cons_trimmed
cons_trimmed-BeginsTrimmed c [] h = rw h h
cons_trimmed-BeginsTrimmed c (d ∷ r) h = h

trim_end-BeginsTrimmed : (s : Text) → BeginsTrimmed s → BeginsTrimmed (trim_end s)
unfolding trim_end
trim_end-BeginsTrimmed [] h = tt
trim_end-BeginsTrimmed (c ∷ s) h = cons_trimmed-BeginsTrimmed c (trim_end s) h

trim_end-cons_trimmed :
    (c : ℕ) (r : Text) → trim_end r ≡ r → trim_end (cons_trimmed c r) ≡ cons_trimmed c r
unfolding trim_end cons_trimmed
trim_end-cons_trimmed c [] h = ground arith
trim_end-cons_trimmed c (d ∷ r) h = rw h

trim_end_idem : (s : Text) → trim_end (trim_end s) ≡ trim_end s
unfolding trim_end
trim_end_idem [] = refl
trim_end_idem (c ∷ s) = trim_end-cons_trimmed c (trim_end s) (trim_end_idem s)

-- What was trimmed has nothing left to trim.
pub trim_idem : (s : Text) → trim (trim s) ≡ trim s
unfolding trim
trim_idem s =
    rw
      (trim_start_of_BeginsTrimmed (trim_end (trim_start s))
        (trim_end-BeginsTrimmed (trim_start s) (trim_start-BeginsTrimmed s)))
      (trim_end_idem (trim_start s))

module _ (p : ℕ → Bool) where
  trim_start-all_of : (s : Text) → all_of p s ≡ true → all_of p (trim_start s) ≡ true
  unfolding trim_start
  trim_start-all_of [] h = refl
  trim_start-all_of (c ∷ s) h = ground (arith, trim_start-all_of s)

  cons_trimmed-all_of :
      (c : ℕ) (r : Text) → p c ≡ true → all_of p r ≡ true → all_of p (cons_trimmed c r) ≡ true
  unfolding cons_trimmed
  cons_trimmed-all_of c [] h k = ground arith
  cons_trimmed-all_of c (d ∷ r) h k = ground arith

  trim_end-all_of : (s : Text) → all_of p s ≡ true → all_of p (trim_end s) ≡ true
  unfolding trim_end
  trim_end-all_of [] h = refl
  trim_end-all_of (c ∷ s) h =
      cons_trimmed-all_of c (trim_end s) (ground arith) (trim_end-all_of s (ground arith))

  -- Trimming only drops characters.
  pub trim-all_of : (s : Text) → all_of p s ≡ true → all_of p (trim s) ≡ true
  unfolding trim
  trim-all_of s h = trim_end-all_of (trim_start s) (trim_start-all_of s h)

length-trim_start : (s : Text) → length (trim_start s) ≤ length s
unfolding trim_start
length-trim_start [] = omega arith
length-trim_start (c ∷ s) = ground (arith, length-trim_start s)

length-cons_trimmed : (c : ℕ) (r : Text) → length (cons_trimmed c r) ≤ length (c ∷ r)
unfolding cons_trimmed
length-cons_trimmed c [] = ground arith
length-cons_trimmed c (d ∷ r) = omega arith

length-trim_end : (s : Text) → length (trim_end s) ≤ length s
unfolding trim_end
length-trim_end [] = omega arith
length-trim_end (c ∷ s) = omega (arith, length-cons_trimmed c (trim_end s), length-trim_end s)

pub length-trim : (s : Text) → length (trim s) ≤ length s
unfolding trim
length-trim s = omega (arith, length-trim_end (trim_start s), length-trim_start s)
