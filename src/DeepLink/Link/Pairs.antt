-- ===== src/DeepLink/Link/Pairs.antt =====
-- The query pairs that a link is written as, and what the loop over them collects
-- (crates/ton-connect-core/src/deep_link.rs).
use mathlib.Core.List.{append_assoc, append-nil}
use wallet_engine.Base.{◌≡◌, false, Option, none, some, List, [], ◌∷◌, ◌++◌, All}
use wallet_engine.Base.Results.{ok, err}
use wallet_engine.Types.Texts.{Text, codes}
use wallet_engine.DeepLink.Value.{IsHex}
use wallet_engine.DeepLink.Link.{
  LinkHost, is_protocol, collect_parameters, append_pairs, append_optional,
}

-- No pair has the name of a protocol parameter.
abbrev pub AreExtensions : List (Text × Text) → Type 0
AreExtensions = All (λ pair. is_protocol pair.0 ≡ false)

abbrev pub pair_of : Text → Option Text → List (Text × Text)
pair_of name none = []
pair_of name (some value) = (name, value) ∷ []

module _ {P J X : Type 0} where
  pub collect_parameters_extensions :
      (pairs known extensions : List (Text × Text))
      → AreExtensions pairs
      → collect_parameters {P = P} {J = J} {X = X} pairs known extensions
        ≡ ok (known, extensions ++ pairs)
  unfolding collect_parameters
  collect_parameters_extensions [] known extensions h = rw (append-nil extensions)
  collect_parameters_extensions ((name, value) ∷ pairs) known extensions (h, hs) = rw (
    h,
    collect_parameters_extensions pairs known (extensions ++ ((name, value) ∷ [])) hs,
    append_assoc extensions ((name, value) ∷ []) pairs,
  )

-- What the url and hex crates document: a URL is read back as it was written, a pair is appended to
-- its query, a URL without a query has no pairs, and a relative reference is no URL.
pub record IsLinkHost {U R E P J X : Type 0} (host : LinkHost U R E P J X) : Type 0 where
  pub parse-as_str : (url : U) → host.parse_url (host.as_str url) ≡ ok url
  pub query_pairs-append_pair :
      (url : U) (name value : Text)
      → host.query_pairs (host.append_pair url name value)
        ≡ host.query_pairs url ++ ((name, value) ∷ [])
  pub no_pairs : (url : U) → host.query url ≡ none → host.query_pairs url ≡ []
  pub relative_back : (e : P) × (host.parse_url (codes "back") ≡ err e)
  pub relative_none : (e : P) × (host.parse_url (codes "none") ≡ err e)
  pub is_hex : IsHex host.hex

module _ {U R E P J X : Type 0} (host : LinkHost U R E P J X) (laws : IsLinkHost host) where
  pub query_pairs-append_pairs :
      (url : U) (pairs : List (Text × Text))
      → host.query_pairs (append_pairs host url pairs) ≡ host.query_pairs url ++ pairs
  unfolding append_pairs
  query_pairs-append_pairs url [] = rw (append-nil (host.query_pairs url))
  query_pairs-append_pairs url ((name, value) ∷ pairs) = rw (
    query_pairs-append_pairs (host.append_pair url name value) pairs,
    laws.query_pairs-append_pair url name value,
    append_assoc (host.query_pairs url) ((name, value) ∷ []) pairs,
  )

  pub query_pairs-append_optional :
      (url : U) (name : Text) (value : Option Text)
      → host.query_pairs (append_optional host url name value)
        ≡ host.query_pairs url ++ pair_of name value
  unfolding append_optional
  query_pairs-append_optional url name none = rw (append-nil (host.query_pairs url))
  query_pairs-append_optional url name (some value) = laws.query_pairs-append_pair url name value
