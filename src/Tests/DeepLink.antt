-- ===== src/Tests/DeepLink.antt =====
-- Runs of the links, and their theorems at one link (crates/ton-connect-core/src/deep_link.rs).
mod Hexadecimal
mod Urls
use wallet_engine.Base.{
  ℕ, zero, suc, ◌≡◌, refl, Bool, true, false, Option, none, some, List, [], ◌∷◌, arith,
}
use wallet_engine.Base.Bytes.{Bytes, IsBytes}
use wallet_engine.Base.Results.{Result, ok, err}
use wallet_engine.Types.Texts.{Text, codes, text_eq, is_ascii_digit}
use wallet_engine.Types.Utf8.{utf8, char_bytes}
use wallet_engine.DeepLink.Telegram.{
  encode_telegram_url_parameters, decode_telegram_url_parameters, replace_char, replace,
  replace_after, has_prefix,
}
use wallet_engine.DeepLink.Telegram.Dashes.{is_transportable, begins_substituted, begins_escape}
use wallet_engine.DeepLink.Telegram.RoundTrip.{decode-encode_telegram}
use wallet_engine.DeepLink.Value.{
  ClientId, TraceId, valid_trace_id, split, before_parts, has_lengths, is_ascii_hexdigit,
  trace_id_try_from, client_id_from_str, client_id_text, is_lower_hex,
}
use wallet_engine.DeepLink.Link.{
  ConnectLink, custom, back, to_url, parse, with_query, append_optional, append_pairs, return_text,
  check_custom, is_protocol, remove, collect_parameters, check_version, decoded, from_parameters,
  parse_return_strategy, optional,
}
use wallet_engine.DeepLink.Link.Written.{IsLink}
use wallet_engine.DeepLink.Link.RoundTrip.{parse-to_url}
use wallet_engine.DeepLink.Link.Parsed.{parse-IsParsed}
use wallet_engine.Tests.DeepLink.Hexadecimal.{lower_hex-IsHex}
use wallet_engine.Tests.DeepLink.Urls.{Url, list_host, list_host-IsLinkHost}

abbrev query : Text
query =
    codes
      "v=2&id=1a78&trace_id=019d-ea&r=%7B%22m%22%3A%22https%3A%2F%2Fx.app%2Fm.json%22%7D&ret=none"

query_transportable : is_transportable query ≡ true
unfolding is_transportable begins_substituted begins_escape has_prefix
query_transportable = refl

decode-encode_telegram_example :
    decode_telegram_url_parameters (encode_telegram_url_parameters query) ≡ query
decode-encode_telegram_example = decode-encode_telegram query query_transportable

encoded_query :
    encode_telegram_url_parameters (codes "v=2&trace_id=019d-ea&ret=x.y")
    ≡ codes "v__2-trace--5Fid__019d--2Dea-ret__x--2Ey"
unfolding encode_telegram_url_parameters replace_char
encoded_query = refl

-- A parameter whose name begins with a low line is not given back.
low_line_name :
    decode_telegram_url_parameters (encode_telegram_url_parameters (codes "a=1&_b=2"))
    ≡ codes "a=1%&5Fb=2"
unfolding encode_telegram_url_parameters decode_telegram_url_parameters replace_char replace
    replace_after has_prefix
low_line_name = refl

abbrev ones : ℕ → Bytes
ones zero = []
ones (suc n) = 0xab ∷ ones n

ones-IsBytes : (n : ℕ) → IsBytes (ones n)
ones-IsBytes zero = tt
ones-IsBytes (suc n) = (omega arith, ones-IsBytes n)

abbrev link : ConnectLink Text Text
link = record {
  client_id = record { bytes = ones 32 };
  request = some (codes "{}");
  return_strategy = back;
  embedded_request = some (codes "e1");
  trace_id = some (record { text = codes "018f4f84-7b8d-7c3f-8d8e-123456789abc" });
  extensions = (codes "future", codes "kept") ∷ [];
}

abbrev url : Url
url =
    (codes "v", codes "2")
    ∷ (codes "id", codes "abababababababababababababababababababababababababababababababab")
    ∷ (codes "r", codes "{}")
    ∷ (codes "ret", codes "back")
    ∷ (codes "trace_id", codes "018f4f84-7b8d-7c3f-8d8e-123456789abc")
    ∷ (codes "e", codes "e1")
    ∷ (codes "future", codes "kept")
    ∷ []

link-IsLink : IsLink link
unfolding valid_trace_id split before_parts has_lengths is_ascii_hexdigit is_ascii_digit is_protocol
    text_eq utf8 char_bytes
link-IsLink = record {
  id_length = refl;
  id_bytes = ones-IsBytes 32;
  trace_valid = refl;
  are_extensions = (refl, tt);
}

written : to_url list_host link (0 ∷ []) ≡ ok url
unfolding to_url with_query append_optional append_pairs return_text client_id_text
written = refl

parse-to_url_example : parse list_host (list_host.as_str url) ≡ ok link
parse-to_url_example =
    parse-to_url list_host list_host-IsLinkHost link (0 ∷ []) url link-IsLink (λ text h. cc)
      (λ text h. cc) written

parse-IsParsed_example : IsLink link × (link.request ≡ none → link.embedded_request ≡ none)
parse-IsParsed_example =
    parse-IsParsed list_host lower_hex-IsHex (list_host.as_str url) link parse-to_url_example
