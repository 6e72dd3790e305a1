-- ===== src/DeepLink/Telegram.antt =====
-- The substitutions of Telegram's `startapp` transport
-- (crates/ton-connect-core/src/deep_link.rs).
pub mod Passes
pub mod Dashes
pub mod Escapes
pub mod RoundTrip
use wallet_engine.Base.{
  ℕ, zero, suc, ◌-◌, Bool, true, false, ◌&&◌, [], ◌∷◌, ◌++◌, ◌==◌, if◌then◌else◌, length,
}
use wallet_engine.Types.Texts.{Text, codes}

-- `str::replace` of a character.
unfoldable pub replace_char : ℕ → Text → Text → Text
replace_char from to [] = []
replace_char from to (c ∷ s) = (if c == from then to else c ∷ []) ++ replace_char from to s

-- `str::starts_with`
unfoldable pub has_prefix : Text → Text → Bool
has_prefix [] s = true
has_prefix (c ∷ prefix) [] = false
has_prefix (c ∷ prefix) (d ∷ s) = d == c && has_prefix prefix s

-- `str::replace` of a text. The counter is what is left of the occurrence that was found last.
unfoldable pub replace_after : ℕ → Text → Text → Text → Text
unfolding has_prefix
replace_after skip from to [] = []
replace_after (suc skip) from to (c ∷ s) = replace_after skip from to s
replace_after zero from to (c ∷ s) =
    let found = replace_after (length from - 1) from to s in
    let rest = replace_after zero from to s in
    if has_prefix from (c ∷ s) then to ++ found else c ∷ rest

unfoldable pub replace : Text → Text → Text → Text
unfolding replace_after
replace from to s = replace_after zero from to s

unfoldable pub encode_telegram_url_parameters : Text → Text
unfolding replace_char
encode_telegram_url_parameters parameters = replace_char b'%' (codes "--") (
    replace_char b'=' (codes "__") (
      replace_char b'&' (codes "-") (
        replace_char b'_' (codes "%5F")
          (replace_char b'-' (codes "%2D") (replace_char b'.' (codes "%2E") parameters)))))

unfoldable pub decode_telegram_url_parameters : Text → Text
unfolding replace_char replace
decode_telegram_url_parameters parameters = replace (codes "%2E") (codes ".") (
    replace (codes "%2D") (codes "-") (
      replace (codes "%5F") (codes "_") (
        replace_char b'-' (codes "&")
          (replace (codes "__") (codes "=") (replace (codes "--") (codes "%") parameters)))))
