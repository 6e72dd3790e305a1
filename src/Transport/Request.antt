-- ===== src/Transport/Request.antt =====
-- The URL and the headers of a Toncenter request (src/transport/request.rs).
use wallet_engine.Base.{
  ℕ, ◌+◌, ◌-◌, ◌/◌, ◌%◌, Bool, false, not, ◌||◌, ◌&&◌, Option, none, some, List, [], ◌∷◌, ◌++◌, ltb,
  leb, ◌==◌, if◌then◌else◌, all_of,
}
use wallet_engine.Base.Bytes.{Bytes}
use wallet_engine.Base.Results.{Result, ok, ok_or, guard, ◌>>=◌, ◌>>◌}
use wallet_engine.Types.Texts.{Text, codes}
use wallet_engine.Types.Utf8.{utf8}
use wallet_engine.Engine.Snapshot.{HttpRequestId, WalletClientConfig}
use wallet_engine.Engine.State.{WalletClientError, invalid_provider_base_url}

pub data HttpMethod : Type 0 where
  get post : HttpMethod

pub record HttpHeader : Type 0 where
  pub name : Text
  pub value : Text

pub record HttpRequest : Type 0 where
  pub id : HttpRequestId
  pub method : HttpMethod
  pub url : Text
  pub headers : List HttpHeader
  pub body : Bytes
  pub timeout_ms : ℕ

-- `b'A'..=b'Z' | b'a'..=b'z' | b'0'..=b'9' | b'*' | b'-' | b'.' | b'_'`
unfoldable pub is_plain : ℕ → Bool
is_plain b =
    leb b'A' b && leb b b'Z'
    || leb b'a' b && leb b b'z'
    || leb b'0' b && leb b b'9'
    || b == b'*'
    || b == b'-'
    || b == b'.'
    || b == b'_'

-- The hexadecimal digit of a nibble, in upper case.
unfoldable pub hex_digit : ℕ → ℕ
hex_digit nibble = if ltb nibble 10 then b'0' + nibble else b'A' + (nibble - 10)

unfoldable pub encoded_byte : ℕ → Text
unfolding is_plain hex_digit
encoded_byte b =
    if is_plain b
    then b ∷ []
    else if b == b' '
    then b'+' ∷ []
    else b'%' ∷ hex_digit (b / 16) ∷ hex_digit (b % 16) ∷ []

unfoldable pub encoded_component : Bytes → Text
unfolding encoded_byte
encoded_component [] = []
encoded_component (b ∷ bs) = encoded_byte b ++ encoded_component bs

-- `str::strip_prefix`
unfoldable pub strip_prefix : Text → Text → Option Text
strip_prefix [] s = some s
strip_prefix (c ∷ prefix) [] = none
strip_prefix (c ∷ prefix) (d ∷ s) = if c == d then strip_prefix prefix s else none

-- `split(c).next()`
unfoldable pub before : ℕ → Text → Text
before c [] = []
before c (d ∷ s) = if d == c then [] else d ∷ before c s

-- `strip_suffix(c)`, or the text itself.
unfoldable pub without_suffix : ℕ → Text → Text
without_suffix c [] = []
without_suffix c (d ∷ []) = if d == c then [] else d ∷ []
without_suffix c (d ∷ e ∷ s) = d ∷ without_suffix c (e ∷ s)

abbrev pub https_or_http : Text → Option Text
https_or_http base = elim (strip_prefix (codes "https://") base) [
  | some rest ↦ some rest
  | none ↦ strip_prefix (codes "http://") base
]

-- A byte of the base that the URL may not hold, or a character that is not ASCII.
unfoldable pub is_forbidden : ℕ → Bool
is_forbidden c =
    leb 128 c || leb c 31 || c == 127 || c == b' ' || c == b'?' || c == b'#' || c == b'\\'

unfoldable pub starts_with : ℕ → Text → Bool
starts_with c [] = false
starts_with c (d ∷ s) = d == c

unfoldable pub is_authority : Text → Bool
unfolding starts_with
is_authority [] = false
is_authority (c ∷ s) = not (starts_with b':' (c ∷ s)) && all_of (λ d. not (d == b'@')) (c ∷ s)

unfoldable pub path_text : List Text → Text
path_text [] = []
path_text (segment ∷ path) = b'/' ∷ (segment ++ path_text path)

-- The pairs, each after its separator: `?` before the first.
unfoldable pub query_text : ℕ → List (Text × Text) → Text
unfolding encoded_component utf8
query_text separator [] = []
query_text separator ((key, value) ∷ query) =
    separator
    ∷ (encoded_component (utf8 key)
        ++ (b'=' ∷ (encoded_component (utf8 value) ++ query_text b'&' query)))

unfoldable pub build_provider_url :
    Text → List Text → List (Text × Text) → Result WalletClientError Text
unfolding strip_prefix before is_authority is_forbidden without_suffix path_text query_text
build_provider_url base path query = do
  rest ← ok_or (https_or_http base) invalid_provider_base_url
  guard (is_authority (before b'/' rest)) invalid_provider_base_url
  guard (all_of (λ c. not (is_forbidden c)) base) invalid_provider_base_url
  ok (without_suffix b'/' base ++ (path_text path ++ query_text b'?' query))

-- `split('/')`, with the segment that is being read, and without empty segments.
unfoldable pub segments : Text → Text → List Text
segments [] [] = []
segments (c ∷ segment) [] = (c ∷ segment) ∷ []
segments [] (d ∷ s) = if d == b'/' then segments [] s else segments (d ∷ []) s
segments (c ∷ segment) (d ∷ s) =
    let next = segments [] s in
    let longer = segments ((c ∷ segment) ++ (d ∷ [])) s in
    if d == b'/' then (c ∷ segment) ∷ next else longer

module _ {A : Type 0} (config : WalletClientConfig A) where
  unfoldable pub build_toncenter_url :
      List Text → List (Text × Text) → Result WalletClientError Text
  unfolding build_provider_url
  build_toncenter_url path query =
      build_provider_url (codes config.providers.toncenter_base_url) path query

  -- The request of both builders, once the URL is built.
  unfoldable pub get_request :
      HttpRequestId → Result WalletClientError Text → Result WalletClientError HttpRequest
  get_request id built = do
    url ← built
    ok (record {
      id = id;
      method = get;
      url = url;
      headers = record { name = codes "Accept"; value = codes "application/json" } ∷ [];
      body = [];
      timeout_ms = config.providers.request_timeout_ms;
    })

  unfoldable pub build_toncenter_v2_request :
      HttpRequestId → Text → List (Text × Text) → Result WalletClientError HttpRequest
  unfolding build_toncenter_url get_request
  build_toncenter_v2_request id path query =
      get_request id (build_toncenter_url (codes "api" ∷ codes "v2" ∷ path ∷ []) query)

  unfoldable pub build_toncenter_v3_request :
      HttpRequestId → Text → List (Text × Text) → Result WalletClientError HttpRequest
  unfolding build_toncenter_url get_request segments
  build_toncenter_v3_request id path query =
      get_request id (build_toncenter_url (codes "api" ∷ codes "v3" ∷ segments [] path) query)
