-- ===== src/DeepLink/Telegram/Dashes.antt =====
-- The encoder of Telegram's `startapp` transport, and the first passes of its decoder
-- (crates/ton-connect-core/src/deep_link.rs).
use wallet_engine.Base.{
  ℕ, ◌≡◌, refl, arith, Bool, true, false, not, ◌&&◌, ◌||◌, [], ◌∷◌, ◌==◌, if◌then◌else◌,
}
use wallet_engine.Types.Texts.{Text, codes}
use wallet_engine.DeepLink.Telegram.{
  replace_char, has_prefix, replace_after, replace, encode_telegram_url_parameters,
}
use wallet_engine.DeepLink.Telegram.Passes.{
  written, Spelled, end, dot, dash, low_line, ampersand, equals_sign, percent, other,
}

-- What the characters of the substitutions are written as; another is itself.
unfoldable pub table : Text → Text → Text → Text → Text → Text → ℕ → Text
table dots dashes low_lines ampersands equals percents c =
    if c == b'.'
    then dots
    else if c == b'-'
    then dashes
    else if c == b'_'
    then low_lines
    else if c == b'&'
    then ampersands
    else if c == b'='
    then equals
    else if c == b'%'
    then percents
    else c ∷ []

-- The text after each pass of the decoder.
abbrev pub encoded : ℕ → Text
encoded = table (codes "--2E") (codes "--2D") (codes "--5F") (codes "-") (codes "__") (codes "--")

abbrev pub escaped : Text → Text → ℕ → Text
escaped ampersands equals =
    table (codes "%2E") (codes "%2D") (codes "%5F") ampersands equals (codes "%")

abbrev pub unescaped : Text → Text → Text → ℕ → Text
unescaped dots dashes low_lines = table dots dashes low_lines (codes "&") (codes "=") (codes "%")

unfoldable pub begins_substituted : Text → Bool
begins_substituted [] = false
begins_substituted (c ∷ s) = c == b'.' || c == b'-' || c == b'_' || c == b'&' || c == b'%'

unfoldable pub begins_escape : Text → Bool
begins_escape s =
    has_prefix (codes "5F") s || has_prefix (codes "2D") s || has_prefix (codes "2E") s

-- No ampersand stands before a character that is written with dashes, and no percent sign before
-- what the decoder reads as one of its own escapes.
unfoldable pub is_transportable : Text → Bool
is_transportable [] = true
is_transportable (c ∷ s) =
    not (c == b'&' && begins_substituted s)
    && not (c == b'%' && begins_escape s)
    && is_transportable s

pub encode-written : {s : Text} → Spelled s → encode_telegram_url_parameters s ≡ written encoded s
unfolding encode_telegram_url_parameters replace_char table
encode-written end = refl
encode-written (dot r) = rw (encode-written r)
encode-written (dash r) = rw (encode-written r)
encode-written (low_line r) = rw (encode-written r)
encode-written (ampersand r) = rw (encode-written r)
encode-written (equals_sign r) = rw (encode-written r)
encode-written (percent r) = rw (encode-written r)
encode-written (other d h l a e p r) = rw (d, h, l, a, e, p, encode-written r)

pub transportable_rest :
    (c : ℕ) (s : Text) → is_transportable (c ∷ s) ≡ true → is_transportable s ≡ true
unfolding is_transportable
transportable_rest c s t = ground arith

no_dash_after :
    {s : Text}
    → Spelled s
    → begins_substituted s ≡ false
    → has_prefix (codes "-") (written encoded s) ≡ false
unfolding begins_substituted has_prefix table
no_dash_after end b = refl
no_dash_after (equals_sign r) b = refl
no_dash_after (other d h l a e p r) b = rw (d, h, l, a, e, p, h)
no_dash_after (dot r) b = absurd cc
no_dash_after (dash r) b = absurd cc
no_dash_after (low_line r) b = absurd cc
no_dash_after (ampersand r) b = absurd cc
no_dash_after (percent r) b = absurd cc

nothing_after_ampersand :
    (s : Text) → is_transportable (b'&' ∷ s) ≡ true → begins_substituted s ≡ false
unfolding is_transportable
nothing_after_ampersand s t = ground arith

pub dashes :
    {s : Text}
    → Spelled s
    → is_transportable s ≡ true
    → replace (codes "--") (codes "%") (written encoded s)
      ≡ written (escaped (codes "-") (codes "__")) s
unfolding replace replace_after has_prefix table
dashes end t = refl
dashes (dot {s} r) t = rw (dashes r (transportable_rest b'.' s t))
dashes (dash {s} r) t = rw (dashes r (transportable_rest b'-' s t))
dashes (low_line {s} r) t = rw (dashes r (transportable_rest b'_' s t))
dashes (ampersand {s} r) t =
    rw (no_dash_after r (nothing_after_ampersand s t), dashes r (transportable_rest b'&' s t))
dashes (equals_sign {s} r) t = rw (dashes r (transportable_rest b'=' s t))
dashes (percent {s} r) t = rw (dashes r (transportable_rest b'%' s t))
dashes (other {c} {s} d h l a e p r) t =
    rw (d, h, l, a, e, p, h, dashes r (transportable_rest c s t))

pub low_lines :
    {s : Text}
    → Spelled s
    → replace (codes "__") (codes "=") (written (escaped (codes "-") (codes "__")) s)
      ≡ written (escaped (codes "-") (codes "=")) s
unfolding replace replace_after has_prefix table
low_lines end = refl
low_lines (dot r) = rw (low_lines r)
low_lines (dash r) = rw (low_lines r)
low_lines (low_line r) = rw (low_lines r)
low_lines (ampersand r) = rw (low_lines r)
low_lines (equals_sign r) = rw (low_lines r)
low_lines (percent r) = rw (low_lines r)
low_lines (other d h l a e p r) = rw (d, h, l, a, e, p, l, low_lines r)

pub ampersands :
    {s : Text}
    → Spelled s
    → replace_char b'-' (codes "&") (written (escaped (codes "-") (codes "=")) s)
      ≡ written (escaped (codes "&") (codes "=")) s
unfolding replace_char table
ampersands end = refl
ampersands (dot r) = rw (ampersands r)
ampersands (dash r) = rw (ampersands r)
ampersands (low_line r) = rw (ampersands r)
ampersands (ampersand r) = rw (ampersands r)
ampersands (equals_sign r) = rw (ampersands r)
ampersands (percent r) = rw (ampersands r)
ampersands (other d h l a e p r) = rw (d, h, l, a, e, p, h, ampersands r)
