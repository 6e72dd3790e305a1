-- ===== src/DeepLink/Telegram/RoundTrip.antt =====
-- What the substitutions of Telegram's `startapp` transport give back
-- (crates/ton-connect-core/src/deep_link.rs).
use wallet_engine.Base.{◌≡◌, true}
use wallet_engine.Types.Texts.{Text}
use wallet_engine.DeepLink.Telegram.{encode_telegram_url_parameters, decode_telegram_url_parameters}
use wallet_engine.DeepLink.Telegram.Passes.{spell}
use wallet_engine.DeepLink.Telegram.Dashes.{
  is_transportable, encode-written, dashes, low_lines, ampersands,
}
use wallet_engine.DeepLink.Telegram.Escapes.{
  escaped_low_lines, escaped_dashes, escaped_dots, written_unescaped,
}

-- A query is decoded to what it was encoded from, if no ampersand in it stands before another
-- ampersand, a percent sign, a dot, a dash or a low line, and no percent sign before 5F, 2D or 2E.
pub decode-encode_telegram :
    (parameters : Text)
    → is_transportable parameters ≡ true
    → decode_telegram_url_parameters (encode_telegram_url_parameters parameters) ≡ parameters
unfolding decode_telegram_url_parameters
decode-encode_telegram parameters t =
    let r = spell parameters in
    rw (
      encode-written r,
      dashes r t,
      low_lines r,
      ampersands r,
      escaped_low_lines r t,
      escaped_dashes r t,
      escaped_dots r t,
      written_unescaped r,
    )
