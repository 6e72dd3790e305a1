-- ===== src/DeepLink/Telegram/Escapes.antt =====
-- The last passes of the decoder of Telegram's `startapp` transport, which read back its escapes
-- (crates/ton-connect-core/src/deep_link.rs).
use wallet_engine.Base.{ℕ, ◌≡◌, refl, arith, true, false, [], ◌∷◌, ◌++◌, ◌==◌}
use wallet_engine.Types.Texts.{Text, codes}
use wallet_engine.DeepLink.Telegram.{has_prefix, replace_after, replace}
use wallet_engine.DeepLink.Telegram.Passes.{
  written, Spelled, end, dot, dash, low_line, ampersand, equals_sign, percent, other,
}
use wallet_engine.DeepLink.Telegram.Dashes.{
  table, unescaped, begins_escape, is_transportable, transportable_rest,
}

-- The text begins with another character.
abbrev Differs : ℕ → Text → Type 0
Differs x [] = ¬ Unit {0}
Differs x (c ∷ t) = (c == x) ≡ false

-- The character is none of those that the substitutions are about.
abbrev IsOther : ℕ → Type 0
IsOther x =
    Differs x (codes ".")
    × Differs x (codes "-")
    × Differs x (codes "_")
    × Differs x (codes "&")
    × Differs x (codes "=")
    × Differs x (codes "%")

Differs-prefix : (x : ℕ) (p t u : Text) → Differs x t → has_prefix (x ∷ p) (t ++ u) ≡ false
unfolding has_prefix
Differs-prefix x p [] u d = absurd (d tt)
Differs-prefix x p (c ∷ t) u d = rw d

letter_kept :
    (x : ℕ) (p dots dashes low_lines : Text)
    → IsOther x
    → Differs x dots
    → Differs x dashes
    → Differs x low_lines
    → ((s : Text)
        → Spelled s
        → has_prefix p (written (unescaped dots dashes low_lines) s) ≡ has_prefix p s)
    → {s : Text} → Spelled s
    → has_prefix (x ∷ p) (written (unescaped dots dashes low_lines) s) ≡ has_prefix (x ∷ p) s
unfolding has_prefix table
letter_kept x p dots dashes low_lines o d h l rest end = refl
letter_kept x p dots dashes low_lines o d h l rest (dot {s} r) =
    rw (Differs-prefix x p dots (written (unescaped dots dashes low_lines) s) d, o.0)
letter_kept x p dots dashes low_lines o d h l rest (dash {s} r) =
    rw (Differs-prefix x p dashes (written (unescaped dots dashes low_lines) s) h, o.1)
letter_kept x p dots dashes low_lines o d h l rest (low_line {s} r) =
    rw (Differs-prefix x p low_lines (written (unescaped dots dashes low_lines) s) l, o.2)
letter_kept x p dots dashes low_lines o d h l rest (ampersand r) = rw (o.3)
letter_kept x p dots dashes low_lines o d h l rest (equals_sign r) = rw (o.4)
letter_kept x p dots dashes low_lines o d h l rest (percent r) = rw (o.5)
letter_kept x p dots dashes low_lines o d h l rest (other a b c e f g r) =
    rw (a, b, c, e, f, g, rest _ r)

escape_kept :
    (x y : ℕ) (dots dashes low_lines : Text)
    → IsOther x
    → IsOther y
    → Differs x dots × Differs y dots
    → Differs x dashes × Differs y dashes
    → Differs x low_lines × Differs y low_lines
    → {s : Text} → Spelled s
    → has_prefix (x ∷ y ∷ []) (written (unescaped dots dashes low_lines) s)
      ≡ has_prefix (x ∷ y ∷ []) s
unfolding has_prefix
escape_kept x y dots dashes low_lines o q d h l r =
    letter_kept x (y ∷ []) dots dashes low_lines o (d.0) (h.0) (l.0)
      (λ s r. letter_kept y [] dots dashes low_lines q (d.1) (h.1) (l.1) (λ s r. refl) r) r

abbrev AfterPercent : Text → Type 0
AfterPercent s =
    (has_prefix (codes "5F") s ≡ false)
    × (has_prefix (codes "2D") s ≡ false)
    × (has_prefix (codes "2E") s ≡ false)

after_percent : (s : Text) → is_transportable (b'%' ∷ s) ≡ true → AfterPercent s
unfolding is_transportable begins_escape
after_percent s t = (ground arith, ground arith, ground arith)

pub escaped_low_lines :
    {s : Text}
    → Spelled s
    → is_transportable s ≡ true
    → replace
        (codes "%5F")
        (codes "_")
        (written (unescaped (codes "%2E") (codes "%2D") (codes "%5F")) s)
      ≡ written (unescaped (codes "%2E") (codes "%2D") (codes "_")) s
unfolding replace replace_after has_prefix table
escaped_low_lines end t = refl
escaped_low_lines (dot {s} r) t = rw (escaped_low_lines r (transportable_rest b'.' s t))
escaped_low_lines (dash {s} r) t = rw (escaped_low_lines r (transportable_rest b'-' s t))
escaped_low_lines (low_line {s} r) t = rw (escaped_low_lines r (transportable_rest b'_' s t))
escaped_low_lines (ampersand {s} r) t = rw (escaped_low_lines r (transportable_rest b'&' s t))
escaped_low_lines (equals_sign {s} r) t = rw (escaped_low_lines r (transportable_rest b'=' s t))
escaped_low_lines (percent {s} r) t = rw (
  escape_kept b'5' b'F' (codes "%2E") (codes "%2D") (codes "%5F")
      (refl, refl, refl, refl, refl, refl) (refl, refl, refl, refl, refl, refl) (refl, refl)
      (refl, refl) (refl, refl) r,
  (after_percent s t).0,
  escaped_low_lines r (transportable_rest b'%' s t),
)
escaped_low_lines (other {c} {s} d h l a e p r) t =
    rw (d, h, l, a, e, p, p, escaped_low_lines r (transportable_rest c s t))

pub escaped_dashes :
    {s : Text}
    → Spelled s
    → is_transportable s ≡ true
    → replace
        (codes "%2D")
        (codes "-")
        (written (unescaped (codes "%2E") (codes "%2D") (codes "_")) s)
      ≡ written (unescaped (codes "%2E") (codes "-") (codes "_")) s
unfolding replace replace_after has_prefix table
escaped_dashes end t = refl
escaped_dashes (dot {s} r) t = rw (escaped_dashes r (transportable_rest b'.' s t))
escaped_dashes (dash {s} r) t = rw (escaped_dashes r (transportable_rest b'-' s t))
escaped_dashes (low_line {s} r) t = rw (escaped_dashes r (transportable_rest b'_' s t))
escaped_dashes (ampersand {s} r) t = rw (escaped_dashes r (transportable_rest b'&' s t))
escaped_dashes (equals_sign {s} r) t = rw (escaped_dashes r (transportable_rest b'=' s t))
escaped_dashes (percent {s} r) t = rw (
  escape_kept b'2' b'D' (codes "%2E") (codes "%2D") (codes "_") (refl, refl, refl, refl, refl, refl)
      (refl, refl, refl, refl, refl, refl) (refl, refl) (refl, refl) (refl, refl) r,
  (after_percent s t).1,
  escaped_dashes r (transportable_rest b'%' s t),
)
escaped_dashes (other {c} {s} d h l a e p r) t =
    rw (d, h, l, a, e, p, p, escaped_dashes r (transportable_rest c s t))

pub escaped_dots :
    {s : Text}
    → Spelled s
    → is_transportable s ≡ true
    → replace
        (codes "%2E")
        (codes ".")
        (written (unescaped (codes "%2E") (codes "-") (codes "_")) s)
      ≡ written (unescaped (codes ".") (codes "-") (codes "_")) s
unfolding replace replace_after has_prefix table
escaped_dots end t = refl
escaped_dots (dot {s} r) t = rw (escaped_dots r (transportable_rest b'.' s t))
escaped_dots (dash {s} r) t = rw (escaped_dots r (transportable_rest b'-' s t))
escaped_dots (low_line {s} r) t = rw (escaped_dots r (transportable_rest b'_' s t))
escaped_dots (ampersand {s} r) t = rw (escaped_dots r (transportable_rest b'&' s t))
escaped_dots (equals_sign {s} r) t = rw (escaped_dots r (transportable_rest b'=' s t))
escaped_dots (percent {s} r) t = rw (
  escape_kept b'2' b'E' (codes "%2E") (codes "-") (codes "_") (refl, refl, refl, refl, refl, refl)
      (refl, refl, refl, refl, refl, refl) (refl, refl) (refl, refl) (refl, refl) r,
  (after_percent s t).2,
  escaped_dots r (transportable_rest b'%' s t),
)
escaped_dots (other {c} {s} d h l a e p r) t =
    rw (d, h, l, a, e, p, p, escaped_dots r (transportable_rest c s t))

pub written_unescaped :
    {s : Text} → Spelled s → written (unescaped (codes ".") (codes "-") (codes "_")) s ≡ s
unfolding table
written_unescaped end = refl
written_unescaped (dot r) = rw (written_unescaped r)
written_unescaped (dash r) = rw (written_unescaped r)
written_unescaped (low_line r) = rw (written_unescaped r)
written_unescaped (ampersand r) = rw (written_unescaped r)
written_unescaped (equals_sign r) = rw (written_unescaped r)
written_unescaped (percent r) = rw (written_unescaped r)
written_unescaped (other d h l a e p r) = rw (d, h, l, a, e, p, written_unescaped r)
