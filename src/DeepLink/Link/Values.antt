-- ===== src/DeepLink/Link/Values.antt =====
-- The values of a link, read back one by one (crates/ton-connect-core/src/deep_link.rs).
use mathlib.Core.Option
use wallet_engine.Base.{◌≡◌, refl, false, Option, none, some, length, Bool-cases, inl, inr}
use wallet_engine.Base.Bytes.{IsBytes}
use wallet_engine.Base.Results.{ok, err, map_err, >>=-eq-ok, >>-eq-ok, map_err-eq-ok}
use wallet_engine.Types.Texts.{Text, codes, text_eq, text_eq-eq}
use wallet_engine.DeepLink.Value.{
  ClientId, TraceId, client_id_text, client_id_from_str, trace_id_try_from,
}
use wallet_engine.DeepLink.Link.{
  LinkHost, ReturnStrategy, back, no_return, custom, optional, check_custom, parse_return_strategy,
  decoded, return_text,
}
use wallet_engine.DeepLink.Link.Pairs.{IsLinkHost}
use wallet_engine.DeepLink.Link.Written.{
  IsReadBack, IsTrace, Optional, absent, present, request_error, value_error,
}

module _ {U R E P J X : Type 0} (host : LinkHost U R E P J X) (laws : IsLinkHost host) where
  -- A relative reference is no custom target.
  pub not_relative :
      (value name : Text)
      → (e : P) × (host.parse_url name ≡ err e)
      → check_custom host value ≡ ok tt
      → text_eq value name ≡ false
  unfolding check_custom
  not_relative value name (e, fails) checked = elim (Bool-cases (text_eq value name)) [
    | inr differs ↦ differs
    | inl same ↦
        let is : host.parse_url value ≡ err e = rw (text_eq-eq value name same, fails) in
        let (parsed, steps, rest) = >>=-eq-ok (map_err _ (host.parse_url value)) _ checked in
        let reached : host.parse_url value ≡ ok parsed =
          map_err-eq-ok _ (host.parse_url value) steps in
        absurd cc
  ]

  -- What is written of a return strategy is read back as it.
  pub parse_return_strategy-return_text :
      (strategy : ReturnStrategy) (text : Text)
      → return_text host strategy ≡ ok text
      → parse_return_strategy host (some text) ≡ ok strategy
  unfolding parse_return_strategy return_text text_eq
  parse_return_strategy-return_text back text w = let is : text ≡ codes "back" = cc in rw is
  parse_return_strategy-return_text no_return text w = let is : text ≡ codes "none" = cc in rw is
  parse_return_strategy-return_text (custom value) text w =
      let (checked, given) = >>-eq-ok (check_custom host value) (ok value) w in
      let is : text ≡ value = cc in
      rw (
        is,
        not_relative value (codes "back") laws.relative_back checked,
        not_relative value (codes "none") laws.relative_none checked,
        checked,
      )

  pub trace_id_back :
      (trace_id : Option TraceId)
      → IsTrace trace_id
      → optional
          (λ t. map_err (value_error {P = P} {J = J} {X = X}) (trace_id_try_from t))
          (Option.map (λ t. t.text) trace_id)
        ≡ ok trace_id
  unfolding trace_id_try_from
  trace_id_back none h = refl
  trace_id_back (some t) h = rw h

  pub client_id_back :
      (id : ClientId)
      → length id.bytes ≡ 32
      → IsBytes id.bytes
      → client_id_from_str host.hex (client_id_text host.hex id) ≡ ok id
  unfolding client_id_from_str client_id_text
  client_id_back id long bytes = rw (
    laws.is_hex.length-encode id.bytes,
    long,
    laws.is_hex.encode-lower id.bytes,
    laws.is_hex.decode-encode id.bytes bytes,
  )

  pub request_back :
      {request : Option R} {text : Option Text}
      → IsReadBack host.request_to_string host.request_from_str request
      → Optional host.request_to_string request text
      → optional
          (λ r. map_err (request_error {P = P} {J = J} {X = X}) (host.request_from_str r))
          text
        ≡ ok request
  request_back read_back absent = refl
  request_back read_back (present {a} {t} w) = rw (read_back t w)

  pub embedded_back :
      {embedded : Option E} {text : Option Text}
      → IsReadBack host.encode_embedded_request_param host.decode_embedded_request_param embedded
      → Optional host.encode_embedded_request_param embedded text
      → decoded host text ≡ embedded
  unfolding decoded
  embedded_back read_back absent = refl
  embedded_back read_back (present {a} {t} w) = rw (read_back t w)
