-- ===== src/DeepLink/Link/Written.antt =====
-- The parameters that a link is written as, and what the loop collects of them
-- (crates/ton-connect-core/src/deep_link.rs).
use wallet_engine.Base.{
  ◌≡◌, refl, subst, Bool, true, not, ◌&&◌, ◌||◌, Option, none, some, List, [], ◌∷◌, ◌++◌, is_some,
  is_none, if◌then◌else◌, length,
}
use wallet_engine.Base.Bytes.{IsBytes}
use wallet_engine.Base.Results.{Result, ok, map_err, >>=-eq-ok, map_err-eq-ok}
use wallet_engine.Types.Texts.{Text, codes, text_eq}
use wallet_engine.Types.Value.{ValueError}
use wallet_engine.DeepLink.Value.{TraceId, valid_trace_id}
use wallet_engine.DeepLink.Link.{
  ConnectLinkError, ConnectLink, remove, collect_parameters, optional, check_version,
  protocol_version, invalid_value, invalid_connect_request,
}
use wallet_engine.DeepLink.Link.Pairs.{AreExtensions, pair_of, collect_parameters_extensions}

-- A trace identifier has its shape, if there is one.
abbrev pub IsTrace : Option TraceId → Type 0
IsTrace none = Unit {0}
IsTrace (some t) = valid_trace_id t.text ≡ true

-- The values that the crate's types hold: a client identifier has 32 bytes, a trace identifier its
-- shape, and an extension no name of the protocol.
pub record IsLink {R E : Type 0} (link : ConnectLink R E) : Type 0 where
  pub id_length : length link.client_id.bytes ≡ 32
  pub id_bytes : IsBytes link.client_id.bytes
  pub trace_valid : IsTrace link.trace_id
  pub are_extensions : AreExtensions link.extensions

abbrev pub version_of : Option Text → Option Text
version_of request = if is_some request then some protocol_version else none

abbrev pub pairs_of : Option Text → Text → Text → Option Text → Option Text → List (Text × Text)
pairs_of request id return_strategy trace_id embedded =
    ((((pair_of (codes "v") (version_of request) ++ ((codes "id", id) ∷ []))
          ++ pair_of (codes "r") request)
        ++ ((codes "ret", return_strategy) ∷ []))
      ++ pair_of (codes "trace_id") trace_id)
    ++ pair_of (codes "e") embedded

abbrev pub known_of : Option Text → Text → Text → Option Text → Option Text → List (Text × Text)
known_of request id return_strategy trace_id embedded =
    pair_of (codes "e") embedded
    ++ (pair_of (codes "trace_id") trace_id
        ++ ((codes "ret", return_strategy)
            ∷ (pair_of (codes "r") request
                ++ ((codes "id", id) ∷ pair_of (codes "v") (version_of request)))))

abbrev pub Gets : Option Text → Text → Text → Option Text → Option Text → Type 0
Gets request id return_strategy trace_id embedded =
    let known = known_of request id return_strategy trace_id embedded in
    (remove (codes "v") known ≡ version_of request)
    × (remove (codes "id") known ≡ some id)
    × (remove (codes "r") known ≡ request)
    × (remove (codes "ret") known ≡ some return_strategy)
    × (remove (codes "trace_id") known ≡ trace_id)
    × (remove (codes "e") known ≡ embedded)

pub remove-known_of :
    (request : Option Text) (id return_strategy : Text) (trace_id embedded : Option Text)
    → Gets request id return_strategy trace_id embedded
unfolding remove text_eq
remove-known_of none id ret none none = (refl, refl, refl, refl, refl, refl)
remove-known_of none id ret none (some e) = (refl, refl, refl, refl, refl, refl)
remove-known_of none id ret (some t) none = (refl, refl, refl, refl, refl, refl)
remove-known_of none id ret (some t) (some e) = (refl, refl, refl, refl, refl, refl)
remove-known_of (some r) id ret none none = (refl, refl, refl, refl, refl, refl)
remove-known_of (some r) id ret none (some e) = (refl, refl, refl, refl, refl, refl)
remove-known_of (some r) id ret (some t) none = (refl, refl, refl, refl, refl, refl)
remove-known_of (some r) id ret (some t) (some e) = (refl, refl, refl, refl, refl, refl)

module _ {P J X : Type 0} where
  pub collect_parameters-pairs_of :
      (request : Option Text) (id return_strategy : Text) (trace_id embedded : Option Text)
      (extensions : List (Text × Text))
      → AreExtensions extensions
      → collect_parameters {P = P} {J = J} {X = X}
          (pairs_of request id return_strategy trace_id embedded ++ extensions)
          []
          []
        ≡ ok (known_of request id return_strategy trace_id embedded, extensions)
  unfolding collect_parameters text_eq
  collect_parameters-pairs_of none id ret none none ext h = collect_parameters_extensions ext _ [] h
  collect_parameters-pairs_of none id ret none (some e) ext h =
      collect_parameters_extensions ext _ [] h
  collect_parameters-pairs_of none id ret (some t) none ext h =
      collect_parameters_extensions ext _ [] h
  collect_parameters-pairs_of none id ret (some t) (some e) ext h =
      collect_parameters_extensions ext _ [] h
  collect_parameters-pairs_of (some r) id ret none none ext h =
      collect_parameters_extensions ext _ [] h
  collect_parameters-pairs_of (some r) id ret none (some e) ext h =
      collect_parameters_extensions ext _ [] h
  collect_parameters-pairs_of (some r) id ret (some t) none ext h =
      collect_parameters_extensions ext _ [] h
  collect_parameters-pairs_of (some r) id ret (some t) (some e) ext h =
      collect_parameters_extensions ext _ [] h

abbrev pub value_error : {P J X : Type 0} → ValueError → ConnectLinkError P J X
value_error = invalid_value

abbrev pub request_error : {P J X : Type 0} → J → ConnectLinkError P J X
request_error = invalid_connect_request

-- The value, if there is one, is read back from what it is written as.
abbrev pub IsReadBack :
    {A F G : Type 0} → (A → Result F Text) → (Text → Result G A) → Option A → Type 0
IsReadBack write read none = Unit {0}
IsReadBack write read (some a) = (text : Text) → write a ≡ ok text → read text ≡ ok a

-- What an optional step succeeds on.
pub data Optional {A F : Type 0} (step : A → Result F Text) : Option A → Option Text → Type 0 where
  absent : Optional step none none
  present : {a : A} {t : Text} → step a ≡ ok t → Optional step (some a) (some t)

pub optional-Optional :
    {A F G : Type 0} (f : F → G) (step : A → Result F Text) (o : Option A) (t : Option Text)
    → optional (λ a. map_err f (step a)) o ≡ ok t
    → Optional step o t
optional-Optional f step none none w = absent
optional-Optional f step none (some t) w = absurd cc
optional-Optional f step (some a) t w =
    let (s, stepped, is) = >>=-eq-ok (map_err f (step a)) _ w in
    let same : some s ≡ t = cc in
    subst (Optional step (some a)) same (present (map_err-eq-ok f (step a) stepped))

pub version_checked :
    {P J X : Type 0} (request : Option Text)
    → check_version {P = P} {J = J} {X = X} (version_of request) ≡ ok tt
unfolding check_version text_eq
version_checked none = refl
version_checked (some r) = refl

pub version_given :
    {A F : Type 0} {write : A → Result F Text} {request : Option A} {text : Option Text}
    → Optional write request text
    → not (is_some request && is_none (version_of text)) ≡ true
version_given absent = refl
version_given (present w) = refl

pub no_option : {A : Type 0} (o : Option A) (b : Bool) → not (is_some o || b) ≡ true → o ≡ none
no_option none b h = refl
no_option (some a) b h = absurd cc

module _ {A B F G : Type 0} {write : A → Result F Text} {embed : B → Result G Text} where
  pub connects :
      {request : Option A} {text : Option Text} {embedded : Option B} {parameter : Option Text}
      → Optional write request text
      → Optional embed embedded parameter
      → not (is_some parameter && is_none text) ≡ true
      → not (is_some embedded && is_none request) ≡ true
  connects absent absent h = h
  connects absent (present w) h = h
  connects (present w) absent h = h
  connects (present w) (present v) h = h
