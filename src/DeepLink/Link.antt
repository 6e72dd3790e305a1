-- ===== src/DeepLink/Link.antt =====
-- The links that open a wallet (crates/ton-connect-core/src/deep_link.rs). URLs belong to the url
-- crate; they are parameters, and so are the codecs of a connect request
-- (crates/ton-connect-core/src/connect.rs) and of an embedded request
-- (crates/ton-connect-core/src/embedded.rs).
pub mod Pairs
pub mod Written
pub mod Values
pub mod RoundTrip
pub mod Parsed
use mathlib.Core.Option
use wallet_engine.Base.{
  ℕ, Bool, true, false, not, ◌&&◌, ◌||◌, Option, none, some, List, [], ◌∷◌, ◌++◌, if◌then◌else◌,
  is_some, is_none,
}
use wallet_engine.Base.Results.{Result, ok, err, ok_or, guard, map_err, ◌>>=◌, ◌>>◌}
use wallet_engine.Types.Texts.{Text, codes, text_eq}
use wallet_engine.Types.Value.{ValueError}
use wallet_engine.DeepLink.Value.{
  Hex, ClientId, TraceId, client_id_text, client_id_from_str, trace_id_try_from,
}

pub data ReturnStrategy : Type 0 where
  back no_return : ReturnStrategy
  custom : Text → ReturnStrategy

pub record ConnectLink (R E : Type 0) : Type 0 where
  pub client_id : ClientId
  pub request : Option R
  pub return_strategy : ReturnStrategy
  pub embedded_request : Option E
  pub trace_id : Option TraceId
  pub extensions : List (Text × Text)

pub data ConnectLinkError (P J X : Type 0) : Type 0 where
  invalid_base_url : P → ConnectLinkError P J X
  base_url_contains_query_or_fragment : ConnectLinkError P J X
  invalid_url : P → ConnectLinkError P J X
  missing_parameter : Text → ConnectLinkError P J X
  duplicate_parameter : Text → ConnectLinkError P J X
  unsupported_version : Text → ConnectLinkError P J X
  embedded_request_without_connect : ConnectLinkError P J X
  invalid_return_strategy : Text → ConnectLinkError P J X
  invalid_value : ValueError → ConnectLinkError P J X
  invalid_connect_request : J → ConnectLinkError P J X
  encode_connect_request : J → ConnectLinkError P J X
  invalid_embedded_request : X → ConnectLinkError P J X

-- URLs `U`, connect requests `R` and embedded requests `E`, with the errors of their codecs.
pub record LinkHost (U R E P J X : Type 0) : Type 0 where
  pub parse_url : Text → Result P U
  pub as_str : U → Text
  pub scheme : U → Text
  pub query : U → Option Text
  pub fragment : U → Option Text
  pub query_pairs : U → List (Text × Text)
  pub append_pair : U → Text → Text → U
  pub request_from_str : Text → Result J R
  pub request_to_string : R → Result J Text
  pub decode_embedded_request_param : Text → Result X E
  pub encode_embedded_request_param : E → Result X Text
  pub hex : Hex

abbrev pub protocol_version : Text
protocol_version = codes "2"

-- `matches!(name.as_str(), "v" | "id" | "r" | "ret" | "e" | "trace_id")`
unfoldable pub is_protocol : Text → Bool
is_protocol name =
    text_eq name (codes "v")
    || text_eq name (codes "id")
    || text_eq name (codes "r")
    || text_eq name (codes "ret")
    || text_eq name (codes "e")
    || text_eq name (codes "trace_id")

-- A `BTreeMap` of parameters: `remove` without the new map.
unfoldable pub remove : Text → List (Text × Text) → Option Text
remove name [] = none
remove name ((key, value) ∷ known) =
    let rest = remove name known in if text_eq key name then some value else rest

-- `transpose` of an optional step.
abbrev pub optional {ℓ} : {A B Err : Type ℓ} → (A → Result Err B) → Option A → Result Err (Option B)
optional step none = ok none
optional step (some a) = step a >>= (λ b. ok (some b))

-- `Result::ok`
abbrev pub ok_option {ℓ} : {A Err : Type ℓ} → Result Err A → Option A
ok_option (ok a) = some a
ok_option (err e) = none

module _ {P J X : Type 0} where
  -- The loop over the pairs of the query.
  unfoldable pub collect_parameters :
      List (Text × Text)
      → List (Text × Text)
      → List (Text × Text)
      → Result (ConnectLinkError P J X) (List (Text × Text) × List (Text × Text))
  unfolding is_protocol remove
  collect_parameters [] known extensions = ok (known, extensions)
  collect_parameters ((name, value) ∷ pairs) known extensions =
      let inserted = collect_parameters pairs ((name, value) ∷ known) extensions in
      let extended = collect_parameters pairs known (extensions ++ ((name, value) ∷ [])) in
      if is_protocol name
      then (if is_some (remove name known) then err (duplicate_parameter name) else inserted)
      else extended

  -- The version, if there is one, is the only one that is supported.
  unfoldable pub check_version : Option Text → Result (ConnectLinkError P J X) (Unit {0})
  check_version none = ok tt
  check_version (some version) =
      guard (text_eq version protocol_version) (unsupported_version version)

module _ {U R E P J X : Type 0} (host : LinkHost U R E P J X) where
  -- `ConnectLink::connect`
  unfoldable pub connect :
      ClientId → R → ReturnStrategy → Option E → Option TraceId → ConnectLink R E
  connect client_id request return_strategy embedded_request trace_id = record {
    client_id = client_id;
    request = some request;
    return_strategy = return_strategy;
    embedded_request = embedded_request;
    trace_id = trace_id;
    extensions = [];
  }

  -- `ConnectLink::reduced`
  unfoldable pub reduced : ClientId → ReturnStrategy → Option TraceId → ConnectLink R E
  reduced client_id return_strategy trace_id = record {
    client_id = client_id;
    request = none;
    return_strategy = return_strategy;
    embedded_request = none;
    trace_id = trace_id;
    extensions = [];
  }

  -- A custom target is an absolute URL.
  unfoldable pub check_custom : Text → Result (ConnectLinkError P J X) (Unit {0})
  check_custom value = do
    parsed ← map_err (λ e. invalid_return_strategy value) (host.parse_url value)
    guard (not (text_eq (host.scheme parsed) [])) (invalid_return_strategy value)

  unfoldable pub parse_return_strategy :
      Option Text → Result (ConnectLinkError P J X) ReturnStrategy
  unfolding check_custom
  parse_return_strategy none = ok back
  parse_return_strategy (some value) =
      if text_eq value (codes "back")
      then ok back
      else if text_eq value (codes "none")
      then ok no_return
      else check_custom value >> ok (custom value)

  -- A malformed embedded request is ignored.
  unfoldable pub decoded : Option Text → Option E
  decoded none = none
  decoded (some parameter) = ok_option (host.decode_embedded_request_param parameter)

  -- The link, once its parameters are collected.
  unfoldable pub from_parameters :
      List (Text × Text) → List (Text × Text) → Result (ConnectLinkError P J X) (ConnectLink R E)
  unfolding remove check_version decoded parse_return_strategy
  from_parameters known extensions = do
    id ← ok_or (remove (codes "id") known) (missing_parameter (codes "id"))
    client_id ← map_err invalid_value (client_id_from_str host.hex id)
    request ←
        optional (λ r. map_err invalid_connect_request (host.request_from_str r))
          (remove (codes "r") known)
    check_version (remove (codes "v") known)
    guard (not (is_some request && is_none (remove (codes "v") known)))
        (missing_parameter (codes "v"))
    let embedded_request = decoded (remove (codes "e") known)
    guard (not (is_some embedded_request && is_none request)) embedded_request_without_connect
    return_strategy ← parse_return_strategy (remove (codes "ret") known)
    trace_id ←
        optional (λ t. map_err invalid_value (trace_id_try_from t))
          (remove (codes "trace_id") known)
    ok (record {
      client_id = client_id;
      request = request;
      return_strategy = return_strategy;
      embedded_request = embedded_request;
      trace_id = trace_id;
      extensions = extensions;
    })

  -- `ConnectLink::parse`
  unfoldable pub parse : Text → Result (ConnectLinkError P J X) (ConnectLink R E)
  unfolding collect_parameters from_parameters
  parse value = do
    url ← map_err invalid_url (host.parse_url value)
    (known, extensions) ← collect_parameters (host.query_pairs url) [] []
    from_parameters known extensions

  -- The text of a return strategy, which must be an absolute URL if it is a custom one.
  unfoldable pub return_text : ReturnStrategy → Result (ConnectLinkError P J X) Text
  unfolding check_custom
  return_text back = ok (codes "back")
  return_text no_return = ok (codes "none")
  return_text (custom value) = check_custom value >> ok value

  -- `query.append_pair` for a parameter that may be absent.
  unfoldable pub append_optional : U → Text → Option Text → U
  append_optional url name none = url
  append_optional url name (some value) = host.append_pair url name value

  unfoldable pub append_pairs : U → List (Text × Text) → U
  append_pairs url [] = url
  append_pairs url ((name, value) ∷ pairs) = append_pairs (host.append_pair url name value) pairs

  -- The block that appends the parameters of the link to the query.
  unfoldable pub with_query : ConnectLink R E → U → Option Text → Text → Option Text → U
  unfolding append_optional append_pairs
  with_query link url request return_strategy embedded =
      let versioned =
        append_optional url (codes "v") (if is_some request then some protocol_version else none) in
      let identified =
        host.append_pair versioned (codes "id") (client_id_text host.hex link.client_id) in
      let requested = append_optional identified (codes "r") request in
      let returning = host.append_pair requested (codes "ret") return_strategy in
      let traced =
        append_optional returning (codes "trace_id") (Option.map (λ t. t.text) link.trace_id) in
      append_pairs (append_optional traced (codes "e") embedded) link.extensions

  -- `ConnectLink::to_url`
  unfoldable pub to_url : ConnectLink R E → Text → Result (ConnectLinkError P J X) U
  unfolding return_text with_query
  to_url link base_url = do
    url ← map_err invalid_base_url (host.parse_url base_url)
    guard (not (is_some (host.query url) || is_some (host.fragment url)))
        base_url_contains_query_or_fragment
    request ← optional (λ r. map_err encode_connect_request (host.request_to_string r)) link.request
    embedded ←
        optional (λ e. map_err invalid_embedded_request (host.encode_embedded_request_param e))
          link.embedded_request
    guard (not (is_some embedded && is_none request)) embedded_request_without_connect
    return_strategy ← return_text link.return_strategy
    ok (with_query link url request return_strategy embedded)
