-- ===== src/Engine/Sections/Active.antt =====
-- Which operations a client has active, and which requests they wait for (src/engine/client.rs).
use wallet_engine.Base.{
  ℕ, false, ◌||◌, ◌≡◌, refl, sym, subst, ◌↔◌, Option, none, some, List, [], ◌∷◌, ◌++◌, is_some,
}
use wallet_engine.Engine.Snapshot.{HttpRequestId}
use wallet_engine.Engine.State.{State}
use wallet_engine.Engine.Client.{has_active_work, active_requests, requests_of, request_of}

pub data IsIn {X : Type 0} (x : X) : List X → Type 0 where
  here : {xs : List X} → IsIn x (x ∷ xs)
  there : {y : X} {xs : List X} → IsIn x xs → IsIn x (y ∷ xs)

IsIn-left : {X : Type 0} {x : X} {xs : List X} (ys : List X) → IsIn x xs → IsIn x (xs ++ ys)
IsIn-left ys here = here
IsIn-left ys (there i) = there (IsIn-left ys i)

IsIn-right : {X : Type 0} {x : X} (xs : List X) {ys : List X} → IsIn x ys → IsIn x (xs ++ ys)
IsIn-right [] i = i
IsIn-right (x ∷ xs) i = there (IsIn-right xs i)

-- A member of a concatenation is one of either part.
by_part :
    {X P : Type 0} {x : X} (xs : List X) {ys : List X}
    → (IsIn x xs → P)
    → (IsIn x ys → P)
    → IsIn x (xs ++ ys)
    → P
by_part [] left right i = right i
by_part (x ∷ xs) left right here = left here
by_part (x ∷ xs) left right (there i) = by_part xs (λ l. left (there l)) right i

module _ {A : Type 0} where
  -- No operation is active.
  abbrev pub IsIdle : State A → Type 0
  IsIdle s =
      (s.active_refresh ≡ none)
      × (s.active_pagination ≡ none)
      × (s.active_nft_refresh ≡ none)
      × (s.active_nft_pagination ≡ none)
      × (s.active_preview ≡ none)
      × (s.active_send ≡ none)
      × (s.active_resolution ≡ none)

  -- An active operation waits for the request.
  pub data IsActiveRequest (s : State A) (id : HttpRequestId) : Type 0 where
    of_refresh :
        {generation : ℕ} {ids : List HttpRequestId}
        → s.active_refresh ≡ some (generation, ids)
        → IsIn id ids
        → IsActiveRequest s id
    of_pagination :
        {generation : ℕ} → s.active_pagination ≡ some (generation, id) → IsActiveRequest s id
    of_nft_refresh :
        {generation : ℕ} → s.active_nft_refresh ≡ some (generation, id) → IsActiveRequest s id
    of_nft_pagination :
        {generation : ℕ} → s.active_nft_pagination ≡ some (generation, id) → IsActiveRequest s id
    of_preview :
        {generation : ℕ} {ids : List HttpRequestId}
        → s.active_preview ≡ some (generation, ids)
        → IsIn id ids
        → IsActiveRequest s id
    of_send :
        {generation : ℕ} {ids : List HttpRequestId}
        → s.active_send ≡ some (generation, ids)
        → IsIn id ids
        → IsActiveRequest s id
    of_resolution :
        {generation : ℕ} {ids : List HttpRequestId}
        → s.active_resolution ≡ some (generation, ids)
        → IsIn id ids
        → IsActiveRequest s id

all_none :
    {P Q R S T U W : Type 0} (a : Option P) (b : Option Q) (c : Option R) (d : Option S)
    (e : Option T) (f : Option U) (g : Option W)
    → (is_some a || is_some b || is_some c || is_some d || is_some e || is_some f || is_some g)
      ≡ false
    → (a ≡ none) × (b ≡ none) × (c ≡ none) × (d ≡ none) × (e ≡ none) × (f ≡ none) × (g ≡ none)
all_none none none none none none none none h = (refl, refl, refl, refl, refl, refl, refl)
all_none (some x) b c d e f g h = absurd cc
all_none none (some x) c d e f g h = absurd cc
all_none none none (some x) d e f g h = absurd cc
all_none none none none (some x) e f g h = absurd cc
all_none none none none none (some x) f g h = absurd cc
all_none none none none none none (some x) g h = absurd cc
all_none none none none none none none (some x) h = absurd cc

of_requests :
    {id : HttpRequestId} (slot : Option (ℕ × List HttpRequestId))
    → IsIn id (requests_of slot)
    → (generation : ℕ) × (ids : List HttpRequestId) × (slot ≡ some (generation, ids)) × IsIn id ids
of_requests none i = elim i [ ]
of_requests (some (generation, ids)) i = (generation, ids, refl, i)

of_request :
    {id : HttpRequestId} (slot : Option (ℕ × HttpRequestId))
    → IsIn id (request_of slot)
    → (generation : ℕ) × (slot ≡ some (generation, id))
of_request none i = elim i [ ]
of_request (some (generation, id)) (there i) = elim i [ ]
of_request (some (generation, id)) here = (generation, refl)

to_requests :
    {id : HttpRequestId} {generation : ℕ} {ids : List HttpRequestId}
    (slot : Option (ℕ × List HttpRequestId))
    → slot ≡ some (generation, ids)
    → IsIn id ids
    → IsIn id (requests_of slot)
to_requests {id} slot is i = subst (λ o. IsIn id (requests_of o)) (sym is) i

to_request :
    {id : HttpRequestId} {generation : ℕ} (slot : Option (ℕ × HttpRequestId))
    → slot ≡ some (generation, id)
    → IsIn id (request_of slot)
to_request {id} slot is = subst (λ o. IsIn id (request_of o)) (sym is) here

module _ {A : Type 0} (s : State A) where
  pub has_active_work-IsIdle : has_active_work s ≡ false → IsIdle s
  unfolding has_active_work
  has_active_work-IsIdle =
      all_none s.active_refresh s.active_pagination s.active_nft_refresh s.active_nft_pagination
        s.active_preview s.active_send s.active_resolution

  pub IsIdle-has_active_work : IsIdle s → has_active_work s ≡ false
  unfolding has_active_work
  IsIdle-has_active_work (a, b, c, d, e, f, g) = rw (a, b, c, d, e, f, g) refl

  of_active : (id : HttpRequestId) → IsIn id (active_requests s) → IsActiveRequest s id
  unfolding active_requests
  of_active id =
      by_part (requests_of s.active_refresh)
        (λ i. let (_, _, is, within) = of_requests s.active_refresh i in of_refresh is within)
        (by_part (request_of s.active_pagination)
          (λ i. let (_, is) = of_request s.active_pagination i in of_pagination is)
          (by_part (request_of s.active_nft_refresh)
            (λ i. let (_, is) = of_request s.active_nft_refresh i in of_nft_refresh is)
            (by_part (request_of s.active_nft_pagination)
              (λ i. let (_, is) = of_request s.active_nft_pagination i in of_nft_pagination is)
              (by_part (requests_of s.active_preview)
                (λ i.
                  let (_, _, is, within) = of_requests s.active_preview i in of_preview is within)
                (by_part (requests_of s.active_send)
                  (λ i. let (_, _, is, within) = of_requests s.active_send i in of_send is within)
                  (λ i.
                    let (_, _, is, within) = of_requests s.active_resolution i in
                    of_resolution is within))))))

  to_active : (id : HttpRequestId) → IsActiveRequest s id → IsIn id (active_requests s)
  unfolding active_requests
  to_active id (of_refresh is within) = IsIn-left _ (to_requests s.active_refresh is within)
  to_active id (of_pagination is) =
      IsIn-right (requests_of s.active_refresh) (IsIn-left _ (to_request s.active_pagination is))
  to_active id (of_nft_refresh is) = IsIn-right (requests_of s.active_refresh) (
      IsIn-right (request_of s.active_pagination)
        (IsIn-left _ (to_request s.active_nft_refresh is)))
  to_active id (of_nft_pagination is) = IsIn-right (requests_of s.active_refresh) (
      IsIn-right (request_of s.active_pagination) (
        IsIn-right (request_of s.active_nft_refresh)
          (IsIn-left _ (to_request s.active_nft_pagination is))))
  to_active id (of_preview is within) = IsIn-right (requests_of s.active_refresh) (
      IsIn-right (request_of s.active_pagination) (
        IsIn-right (request_of s.active_nft_refresh) (
          IsIn-right (request_of s.active_nft_pagination)
            (IsIn-left _ (to_requests s.active_preview is within)))))
  to_active id (of_send is within) = IsIn-right (requests_of s.active_refresh) (
      IsIn-right (request_of s.active_pagination) (
        IsIn-right (request_of s.active_nft_refresh) (
          IsIn-right (request_of s.active_nft_pagination) (
            IsIn-right (requests_of s.active_preview)
              (IsIn-left _ (to_requests s.active_send is within))))))
  to_active id (of_resolution is within) = IsIn-right (requests_of s.active_refresh) (
      IsIn-right (request_of s.active_pagination) (
        IsIn-right (request_of s.active_nft_refresh) (
          IsIn-right (request_of s.active_nft_pagination) (
            IsIn-right (requests_of s.active_preview) (
              IsIn-right (requests_of s.active_send)
                (to_requests s.active_resolution is within))))))

  -- The requests that shutdown collects are those that an active operation waits for.
  pub active_requests-IsActiveRequest :
      (id : HttpRequestId) → IsIn id (active_requests s) ↔ IsActiveRequest s id
  active_requests-IsActiveRequest id = (of_active id, to_active id)
