-- ===== src/DeepLink/Link/Parsed.antt =====
-- What holds of a link that was parsed (crates/ton-connect-core/src/deep_link.rs).

use wallet_engine.Base.{
  ◌≡◌, refl, arith, true, not, ◌&&◌, Option, none, some, List, [], ◌∷◌, ◌++◌, is_some, is_none,
  length, ◌==◌, ==_iff, all_of, Bool-cases, inl, inr,
}
use wallet_engine.Base.Bytes.{IsBytes}
use wallet_engine.Base.Results.{ok, map_err, map_err-eq-ok}
use wallet_engine.Base.Holds.{
  Holds, holds, fails, Holds-of-ok, Holds->>=, Holds->>, Holds-ok_or, Holds-guard,
}
use wallet_engine.Types.Texts.{Text, codes}
use wallet_engine.Types.Utf8.{utf8}
use wallet_engine.Types.Value.{invalid_client_id}
use wallet_engine.DeepLink.Value.{
  ClientId, client_id_from_str, trace_id_try_from, valid_trace_id, is_lower_hex, IsHex, Hex,
}
use wallet_engine.DeepLink.Link.{
  LinkHost, ConnectLink, remove, collect_parameters, is_protocol, optional, check_version,
  parse_return_strategy, decoded, from_parameters, parse, invalid_value, invalid_url,
  missing_parameter, embedded_request_without_connect, invalid_connect_request,
}
use wallet_engine.DeepLink.Link.Pairs.{AreExtensions}
use wallet_engine.DeepLink.Link.Written.{IsLink, IsTrace, value_error}

IsClientId : ClientId → Type 0
IsClientId id = (length id.bytes ≡ 32) × IsBytes id.bytes

client_id_from_str-IsClientId :
    (hex : Hex) → IsHex hex → (value : Text) → Holds IsClientId (client_id_from_str hex value)
unfolding client_id_from_str IsClientId
client_id_from_str-IsClientId hex laws value =
    Holds-guard _ (length (utf8 value) == 64 && all_of is_lower_hex (utf8 value)) invalid_client_id
      _
      λ long. Holds-ok_or _ (hex.decode value) invalid_client_id _ λ bytes decoded.
        let (are, twice) = laws.decode-bytes value bytes decoded in
        holds (ground (arith, ==_iff (length (utf8 value)) 64), are)

AreExtensions-append :
    (xs ys : List (Text × Text)) → AreExtensions xs → AreExtensions ys → AreExtensions (xs ++ ys)
AreExtensions-append [] ys h k = k
AreExtensions-append (x ∷ xs) ys (h, hs) k = (h, AreExtensions-append xs ys hs k)

collect_parameters-AreExtensions :
    {P J X : Type 0} (pairs known extensions : List (Text × Text))
    → AreExtensions extensions
    → Holds
        (λ both. AreExtensions both.1)
        (collect_parameters {P = P} {J = J} {X = X} pairs known extensions)
unfolding collect_parameters
collect_parameters-AreExtensions [] known extensions h = holds h
collect_parameters-AreExtensions ((name, value) ∷ pairs) known extensions h =
    elim (Bool-cases (is_protocol name)) [
      | inr other ↦ rw other (
          collect_parameters-AreExtensions pairs known (extensions ++ ((name, value) ∷ []))
            (AreExtensions-append extensions ((name, value) ∷ []) h (other, tt)))
      | inl of_protocol ↦ rw of_protocol (elim (Bool-cases (is_some (remove name known))) [
        | inl repeated ↦ rw repeated fails
        | inr fresh ↦
            rw fresh (collect_parameters-AreExtensions pairs ((name, value) ∷ known) extensions h)
      ])
    ]

trace_id_try_from-valid :
    (value : Text) → Holds (λ t. valid_trace_id t.text ≡ true) (trace_id_try_from value)
unfolding trace_id_try_from
trace_id_try_from-valid value = elim (Bool-cases (valid_trace_id value)) [
  | inl valid ↦ rw valid (holds valid)
  | inr malformed ↦ rw malformed fails
]

optional-IsTrace :
    {P J X : Type 0} (value : Option Text)
    → Holds IsTrace
        (optional (λ t. map_err (value_error {P = P} {J = J} {X = X}) (trace_id_try_from t)) value)
optional-IsTrace none = holds tt
optional-IsTrace (some value) =
    Holds->>= _ (map_err value_error (trace_id_try_from value)) _ λ trace_id is. holds (
      Holds-of-ok _ (trace_id_try_from value) trace_id (trace_id_try_from-valid value)
        (map_err-eq-ok value_error (trace_id_try_from value) is))

no_embedded :
    {A B : Type 0} (embedded : Option A) (request : Option B)
    → not (is_some embedded && is_none request) ≡ true
    → request ≡ none
    → embedded ≡ none
no_embedded none request h is = refl
no_embedded (some e) none h is = absurd cc
no_embedded (some e) (some r) h is = absurd cc

module _ {U R E P J X : Type 0} (host : LinkHost U R E P J X) (is_hex : IsHex host.hex) where
  abbrev IsParsed : ConnectLink R E → Type 0
  IsParsed link = IsLink link × (link.request ≡ none → link.embedded_request ≡ none)

  from_parameters-IsParsed :
      (known extensions : List (Text × Text))
      → AreExtensions extensions
      → Holds IsParsed (from_parameters host known extensions)
  unfolding from_parameters IsClientId
  from_parameters-IsParsed known extensions unknown =
      Holds-ok_or _ (remove (codes "id") known) (missing_parameter (codes "id")) _ λ id given.
        Holds->>= _ (map_err invalid_value (client_id_from_str host.hex id)) _ λ client_id is_id.
          Holds->>= _
            (optional (λ r. map_err invalid_connect_request (host.request_from_str r))
              (remove (codes "r") known))
            _
            λ request requested.
              Holds->> _ (check_version (remove (codes "v") known)) _ λ supported.
                Holds-guard _ (not (is_some request && is_none (remove (codes "v") known)))
                  (missing_parameter (codes "v")) _
                  λ versioned.
                    Holds-guard _
                      (not (is_some (decoded host (remove (codes "e") known)) && is_none request))
                      embedded_request_without_connect _
                      λ connected.
                        Holds->>= _ (parse_return_strategy host (remove (codes "ret") known)) _
                          λ strategy returning.
                            Holds->>= _
                              (optional (λ t. map_err invalid_value (trace_id_try_from t))
                                (remove (codes "trace_id") known))
                              _
                              λ trace_id traced.
                                let id_is =
                                  Holds-of-ok _ (client_id_from_str host.hex id) client_id
                                    (client_id_from_str-IsClientId host.hex is_hex id)
                                    (map_err-eq-ok invalid_value (client_id_from_str host.hex id)
                                      is_id) in
                                holds (
                                  (
                                    record {
                                      id_length = id_is.0;
                                      id_bytes = id_is.1;
                                      trace_valid =
                                          Holds-of-ok _ _ trace_id
                                            (optional-IsTrace {P = P} {J = J} {X = X}
                                              (remove (codes "trace_id") known))
                                            traced;
                                      are_extensions = unknown;
                                    },
                                    no_embedded _ request connected,
                                  ))

  -- A link that is parsed has a client identifier of 32 bytes, a trace identifier of its shape if it
  -- has one, extensions that no parameter of the protocol is among, and no embedded request without a
  -- connect request; all that is asked of the host is what the hex crate documents.
  pub parse-IsParsed :
      (value : Text) (link : ConnectLink R E)
      → parse host value ≡ ok link
      → IsLink link × (link.request ≡ none → link.embedded_request ≡ none)
  unfolding parse
  parse-IsParsed value link parsed =
      Holds-of-ok IsParsed (parse host value) link
        (Holds->>= _ (map_err invalid_url (host.parse_url value)) _ λ url is_url.
          Holds->>= _ (collect_parameters (host.query_pairs url) [] []) _ λ both collected.
            from_parameters-IsParsed both.0 both.1 (
              Holds-of-ok _
                (collect_parameters {P = P} {J = J} {X = X} (host.query_pairs url) [] []) both
                (collect_parameters-AreExtensions (host.query_pairs url) [] [] tt) collected))
        parsed
