-- ===== src/DeepLink/Link/RoundTrip.antt =====
-- A link that is written as a URL and read back (crates/ton-connect-core/src/deep_link.rs).
use mathlib.Core.Option
use wallet_engine.Base.{◌≡◌, true, not, ◌&&◌, ◌||◌, Option, [], ◌++◌, is_some, is_none}
use wallet_engine.Base.Results.{ok, map_err}
use wallet_engine.Base.Holds.{Holds, holds, Holds-of-ok, Holds->>=, Holds-guard}
use wallet_engine.Types.Texts.{Text}
use wallet_engine.DeepLink.Value.{client_id_text}
use wallet_engine.DeepLink.Link.{
  LinkHost, ConnectLink, invalid_base_url, base_url_contains_query_or_fragment,
  embedded_request_without_connect, with_query, optional, check_version, from_parameters, parse,
  return_text, to_url, encode_connect_request, invalid_embedded_request,
}
use wallet_engine.DeepLink.Link.Pairs.{
  IsLinkHost, query_pairs-append_pairs, query_pairs-append_optional,
}
use wallet_engine.DeepLink.Link.Written.{
  IsLink, IsReadBack, Optional, collect_parameters-pairs_of, connects, known_of, no_option,
  optional-Optional, pairs_of, remove-known_of, version_checked, version_given,
}
use wallet_engine.DeepLink.Link.Values.{
  client_id_back, embedded_back, parse_return_strategy-return_text, request_back, trace_id_back,
}

module _ {U R E P J X : Type 0} (host : LinkHost U R E P J X) (laws : IsLinkHost host) where
  known_back :
      (link : ConnectLink R E) (request embedded : Option Text) (return_strategy : Text)
      → IsLink link
      → IsReadBack host.request_to_string host.request_from_str link.request
      → IsReadBack host.encode_embedded_request_param host.decode_embedded_request_param
          link.embedded_request
      → Optional host.request_to_string link.request request
      → Optional host.encode_embedded_request_param link.embedded_request embedded
      → not (is_some embedded && is_none request) ≡ true
      → return_text host link.return_strategy ≡ ok return_strategy
      → from_parameters host
          (known_of request
            (client_id_text host.hex link.client_id)
            return_strategy
            (Option.map (λ t. t.text) link.trace_id)
            embedded)
          link.extensions
        ≡ ok link
  unfolding from_parameters check_version
  known_back link request embedded return_strategy good asks_back embeds_back requested embeds
        with_connect returned =
      let (v, id, r, ret, trace, e) =
        remove-known_of request (client_id_text host.hex link.client_id) return_strategy
          (Option.map (λ t. t.text) link.trace_id) embedded in
      rw (
        v,
        id,
        r,
        ret,
        trace,
        e,
        client_id_back host laws link.client_id good.id_length good.id_bytes,
        request_back host laws asks_back requested,
        embedded_back host laws embeds_back embeds,
        parse_return_strategy-return_text host laws link.return_strategy return_strategy returned,
        trace_id_back host laws link.trace_id good.trace_valid,
        version_checked {P = P} {J = J} {X = X} request,
        version_given requested,
        connects requested embeds with_connect,
      )

  no_query :
      (url : U)
      → not (is_some (host.query url) || is_some (host.fragment url)) ≡ true
      → host.query_pairs url ≡ []
  no_query url h = laws.no_pairs url (no_option (host.query url) (is_some (host.fragment url)) h)

  query_pairs-with_query :
      (link : ConnectLink R E) (url : U) (request : Option Text) (return_strategy : Text)
      (embedded : Option Text)
      → host.query_pairs url ≡ []
      → host.query_pairs (with_query host link url request return_strategy embedded)
        ≡ pairs_of request
            (client_id_text host.hex link.client_id)
            return_strategy
            (Option.map (λ t. t.text) link.trace_id)
            embedded
          ++ link.extensions
  unfolding with_query
  query_pairs-with_query link url request return_strategy embedded fresh = rw (
    query_pairs-append_pairs host laws,
    query_pairs-append_optional host laws,
    query_pairs-append_optional host laws,
    laws.query_pairs-append_pair,
    query_pairs-append_optional host laws,
    laws.query_pairs-append_pair,
    query_pairs-append_optional host laws,
    fresh,
  )

  with_query_back :
      (link : ConnectLink R E) (url : U) (request embedded : Option Text) (return_strategy : Text)
      → IsLink link
      → IsReadBack host.request_to_string host.request_from_str link.request
      → IsReadBack host.encode_embedded_request_param host.decode_embedded_request_param
          link.embedded_request
      → not (is_some (host.query url) || is_some (host.fragment url)) ≡ true
      → Optional host.request_to_string link.request request
      → Optional host.encode_embedded_request_param link.embedded_request embedded
      → not (is_some embedded && is_none request) ≡ true
      → return_text host link.return_strategy ≡ ok return_strategy
      → parse host (host.as_str (with_query host link url request return_strategy embedded))
        ≡ ok link
  unfolding parse
  with_query_back link url request embedded return_strategy good asks_back embeds_back plain
        requested embeds connected returned =
      rw
        (
          laws.parse-as_str,
          query_pairs-with_query link url request return_strategy embedded (no_query url plain),
          collect_parameters-pairs_of {P = P} {J = J} {X = X} request
              (client_id_text host.hex link.client_id) return_strategy
              (Option.map (λ t. t.text) link.trace_id) embedded link.extensions good.are_extensions,
        )
        (known_back link request embedded return_strategy good asks_back embeds_back requested
          embeds connected returned)

  -- What `to_url` succeeds with is read back as the link.
  to_url-Holds :
      (link : ConnectLink R E) (base_url : Text)
      → IsLink link
      → IsReadBack host.request_to_string host.request_from_str link.request
      → IsReadBack host.encode_embedded_request_param host.decode_embedded_request_param
          link.embedded_request
      → Holds (λ url. parse host (host.as_str url) ≡ ok link) (to_url host link base_url)
  unfolding to_url
  to_url-Holds link base_url good asks_back embeds_back =
      Holds->>= _ (map_err invalid_base_url (host.parse_url base_url)) _ λ url parsed.
        Holds-guard _ (not (is_some (host.query url) || is_some (host.fragment url)))
          base_url_contains_query_or_fragment _
          λ plain.
            Holds->>= _
              (optional (λ r. map_err encode_connect_request (host.request_to_string r))
                link.request)
              _
              λ request requested.
                Holds->>= _
                  (optional
                    (λ e. map_err invalid_embedded_request (host.encode_embedded_request_param e))
                    link.embedded_request)
                  _
                  λ embedded embeds.
                    Holds-guard _ (not (is_some embedded && is_none request))
                      embedded_request_without_connect _
                      λ connected.
                        Holds->>= _ (return_text host link.return_strategy) _
                          λ return_strategy returned. holds (
                            with_query_back link url request embedded return_strategy good asks_back
                              embeds_back plain
                              (optional-Optional encode_connect_request host.request_to_string
                                link.request request requested)
                              (optional-Optional invalid_embedded_request
                                host.encode_embedded_request_param link.embedded_request embedded
                                embeds)
                              connected returned)

  -- A link that is written as a URL is read back from it, whatever the base was, if its connect request and
  -- its embedded request are read back from what they are written as. The link has a client identifier of
  -- 32 bytes, a trace identifier of its shape if it has one, and extensions that no parameter of the
  -- protocol is among; URLs and hexadecimal digits follow the documentation of their crates.
  pub parse-to_url :
      (link : ConnectLink R E) (base_url : Text) (url : U)
      → IsLink link
      → IsReadBack host.request_to_string host.request_from_str link.request
      → IsReadBack host.encode_embedded_request_param host.decode_embedded_request_param
          link.embedded_request
      → to_url host link base_url ≡ ok url
      → parse host (host.as_str url) ≡ ok link
  parse-to_url link base_url url good asks_back embeds_back written =
      Holds-of-ok _ (to_url host link base_url) url
        (to_url-Holds link base_url good asks_back embeds_back) written
