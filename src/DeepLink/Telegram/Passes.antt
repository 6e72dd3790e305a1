-- ===== src/DeepLink/Telegram/Passes.antt =====
-- One pass of a substitution over a text that is written character by character.
use mathlib.Core.List.{append_assoc}
use wallet_engine.Base.{
  ℕ, ◌≡◌, sym, subst, refl, true, false, [], ◌∷◌, ◌++◌, ◌==◌, if◌then◌else◌, ==_iff, inl, inr,
  Bool-cases,
}
use wallet_engine.Types.Texts.{Text}
use wallet_engine.DeepLink.Telegram.{replace_char}

-- A text in which each character is written by `f`.
abbrev pub written : (ℕ → Text) → Text → Text
written f [] = []
written f (c ∷ s) = f c ++ written f s

-- A text, character by character: those that the substitutions are about, and the others.
pub data Spelled : Text → Type 0 where
  end : Spelled []
  dot : {s : Text} → Spelled s → Spelled (b'.' ∷ s)
  dash : {s : Text} → Spelled s → Spelled (b'-' ∷ s)
  low_line : {s : Text} → Spelled s → Spelled (b'_' ∷ s)
  ampersand : {s : Text} → Spelled s → Spelled (b'&' ∷ s)
  equals_sign : {s : Text} → Spelled s → Spelled (b'=' ∷ s)
  percent : {s : Text} → Spelled s → Spelled (b'%' ∷ s)
  other :
      {c : ℕ} {s : Text}
      → (c == b'.') ≡ false
      → (c == b'-') ≡ false
      → (c == b'_') ≡ false
      → (c == b'&') ≡ false
      → (c == b'=') ≡ false
      → (c == b'%') ≡ false
      → Spelled s
      → Spelled (c ∷ s)

same_char : (c d : ℕ) {s : Text} → Spelled (d ∷ s) → (c == d) ≡ true → Spelled (c ∷ s)
same_char c d {s} r e = subst (λ x. Spelled (x ∷ s)) (sym ((==_iff c d).0 e)) r

spell_char : (c : ℕ) {s : Text} → Spelled s → Spelled (c ∷ s)
spell_char c r = elim (Bool-cases (c == b'.')) [
  | inl e ↦ same_char c b'.' (dot r) e
  | inr no_dot ↦ elim (Bool-cases (c == b'-')) [
    | inl e ↦ same_char c b'-' (dash r) e
    | inr no_dash ↦ elim (Bool-cases (c == b'_')) [
      | inl e ↦ same_char c b'_' (low_line r) e
      | inr no_low_line ↦ elim (Bool-cases (c == b'&')) [
        | inl e ↦ same_char c b'&' (ampersand r) e
        | inr no_ampersand ↦ elim (Bool-cases (c == b'=')) [
          | inl e ↦ same_char c b'=' (equals_sign r) e
          | inr no_equals_sign ↦ elim (Bool-cases (c == b'%')) [
            | inl e ↦ same_char c b'%' (percent r) e
            | inr no_percent ↦
                other no_dot no_dash no_low_line no_ampersand no_equals_sign no_percent r
          ]
        ]
      ]
    ]
  ]
]

pub spell : (s : Text) → Spelled s
spell [] = end
spell (c ∷ s) = spell_char c (spell s)

replace_char-append :
    (from : ℕ) (to s t : Text)
    → replace_char from to (s ++ t) ≡ replace_char from to s ++ replace_char from to t
unfolding replace_char
replace_char-append from to [] t = refl
replace_char-append from to (c ∷ s) t =
    rw (replace_char-append from to s t, append_assoc (if c == from then to else c ∷ []) _ _)

pub replace_char-written :
    (from : ℕ) (to : Text) (f : ℕ → Text) (s : Text)
    → replace_char from to (written f s) ≡ written (λ c. replace_char from to (f c)) s
unfolding replace_char
replace_char-written from to f [] = refl
replace_char-written from to f (c ∷ s) =
    rw (replace_char-append from to (f c) (written f s), replace_char-written from to f s)

-- A character as itself.
abbrev pub itself : ℕ → Text
itself c = c ∷ []

pub written_itself : (s : Text) → written itself s ≡ s
written_itself [] = refl
written_itself (c ∷ s) = rw (written_itself s)

pub written-same : (f g : ℕ → Text) (s : Text) → ((c : ℕ) → f c ≡ g c) → written f s ≡ written g s
written-same f g [] same = refl
written-same f g (c ∷ s) same = rw (same c, written-same f g s same)
