-- ===== src/Tests/DeepLink/Urls.antt =====
-- URLs that are lists of pairs, with the laws that the links rely on.
use wallet_engine.Base.{ℕ, zero, suc, ◌≡◌, refl, Option, none, some, List, [], ◌∷◌, ◌++◌}
use wallet_engine.Base.Results.{Result, ok, err}
use wallet_engine.Types.Texts.{Text, codes}
use wallet_engine.DeepLink.Link.{LinkHost}
use wallet_engine.DeepLink.Link.Pairs.{IsLinkHost}
use wallet_engine.Tests.DeepLink.Hexadecimal.{lower_hex, lower_hex-IsHex}

abbrev pub Url : Type 0
Url = List (Text × Text)

-- A text with its end, before another.
abbrev pub ended : Text → Text → Text
ended [] rest = 0 ∷ rest
ended (c ∷ s) rest = suc c ∷ ended s rest

abbrev pub url_text : Url → Text
url_text [] = []
url_text ((name, value) ∷ url) = ended name (ended value (url_text url))

abbrev pub longer : ℕ → List Text → List Text
longer c [] = (c ∷ []) ∷ []
longer c (s ∷ texts) = (c ∷ s) ∷ texts

abbrev pub texts : Text → List Text
texts [] = []
texts (zero ∷ s) = [] ∷ texts s
texts (suc c ∷ s) = longer c (texts s)

abbrev pub paired : List Text → Url
paired (name ∷ value ∷ rest) = (name, value) ∷ paired rest
paired _ = []

abbrev pub read_url : Text → Result (Unit {0}) Url
read_url (zero ∷ s) = ok (paired (texts s))
read_url _ = err tt

abbrev pub query_of : Url → Option Text
query_of [] = none
query_of (pair ∷ url) = some []

abbrev pub list_host : LinkHost Url Text Text (Unit {0}) (Unit {0}) (Unit {0})
list_host = record {
  parse_url = read_url;
  as_str = λ url. 0 ∷ url_text url;
  scheme = λ url. codes "tc";
  query = query_of;
  fragment = λ url. none;
  query_pairs = λ url. url;
  append_pair = λ url name value. url ++ ((name, value) ∷ []);
  request_from_str = ok;
  request_to_string = ok;
  decode_embedded_request_param = ok;
  encode_embedded_request_param = ok;
  hex = lower_hex;
}

texts-ended : (s rest : Text) → texts (ended s rest) ≡ s ∷ texts rest
texts-ended [] rest = refl
texts-ended (c ∷ s) rest = rw (texts-ended s rest)

paired-url_text : (url : Url) → paired (texts (url_text url)) ≡ url
paired-url_text [] = refl
paired-url_text ((name, value) ∷ url) = rw (
  texts-ended name (ended value (url_text url)),
  texts-ended value (url_text url),
  paired-url_text url,
)

no_query : (url : Url) → query_of url ≡ none → url ≡ []
no_query [] h = refl
no_query (pair ∷ url) h = absurd cc

pub list_host-IsLinkHost : IsLinkHost list_host
list_host-IsLinkHost = record {
  parse-as_str = λ url. rw (paired-url_text url);
  query_pairs-append_pair = λ url name value. refl;
  no_pairs = no_query;
  relative_back = (tt, refl);
  relative_none = (tt, refl);
  is_hex = lower_hex-IsHex;
}
