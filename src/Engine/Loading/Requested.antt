-- ===== src/Engine/Loading/Requested.antt =====
-- The sections that request, cancel and end, and the invariant of the loading sections (src/engine/activity.rs, src/engine/refresh.rs,
-- src/engine/nft.rs).
use wallet_engine.Base.{
  ℕ, true, false, not, ◌||◌, ◌≡◌, refl, ap, ◌∙◌, arith, Option, none, some, List, [], ◌∷◌, is_some,
  if-cases, Option-cases, inl, inr,
}
use wallet_engine.Base.Results.{err}
use wallet_engine.Types.Decimal.{BigUintText}
use wallet_engine.Transport.Request.{HttpRequest}
use wallet_engine.Engine.Snapshot.{HttpRequestId}
use wallet_engine.Engine.State.{
  State, ActivityPageCursor, allocate_request_id, identifier_exhausted, is_current, OperationFamily,
  ensure_running,
}
use wallet_engine.Engine.State.Rules.{
  Leaves, and_then-Leaves, try-Leaves, count-Leaves, returns-Leaves,
}
use wallet_engine.Engine.Activity.{ActivityHost}
use wallet_engine.Engine.Loading.{
  set_activity_resource, set_pagination_resource, set_account_resource, begin_page, start_page,
  start_load_more_activity, cancel_load_more_activity, begin_refresh, start_refresh, finish_refresh,
  cancel_requests, cancel_refresh,
}
use wallet_engine.Engine.Loading.Kept.{IsLoaded, LoadView, publish-IsLoaded, allocate-IsLoaded}
use wallet_engine.Engine.Client.{requests_of}

pub none_of : {X : Type 0} (o : Option X) → is_some o ≡ false → o ≡ none
none_of none h = refl
none_of (some x) h = absurd cc

module _ {A : Type 0} (host : ActivityHost A) where
  begin_page-IsLoaded :
      (id : HttpRequestId) (request : HttpRequest) (s : State A)
      → IsLoaded host s
      → s.active_refresh ≡ none
      → Leaves (IsLoaded host) (begin_page id request s)
  unfolding begin_page set_pagination_resource
  begin_page-IsLoaded id request s i idle =
      count-Leaves (IsLoaded host) s.pagination_generation _ _
        (returns-Leaves (IsLoaded host) s (err identifier_exhausted) i)
        (λ n. publish-IsLoaded host _ _ (record {
          items_shown = i.items_shown;
          more_shown = i.more_shown;
          cursor_shown = i.cursor_shown;
          unique = i.unique;
          alone = λ (h : is_some s.active_refresh ≡ true). absurd (ground arith);
          nfts_alone = i.nfts_alone;
          nfts_unique = i.nfts_unique;
          nfts_shown = i.nfts_shown;
        }))

  start_page-IsLoaded :
      (big : BigUintText) (c : Option ActivityPageCursor) (s : State A)
      → IsLoaded host s
      → s.active_refresh ≡ none
      → Leaves (IsLoaded host) (start_page big c s)
  unfolding start_page
  start_page-IsLoaded big none s i idle = returns-Leaves (IsLoaded host) s _ i
  start_page-IsLoaded big (some c) s i idle =
      let (allocated, same) = allocate-IsLoaded host s i in
      and_then-Leaves (IsLoaded host) (allocate_request_id s) _ allocated λ id kept.
        try-Leaves (IsLoaded host) _ _ _ kept λ request.
          begin_page-IsLoaded id request _ kept
            (ap (λ (v : LoadView A). v.active_refresh) same ∙ idle)

  begin_refresh-IsLoaded :
      (account_id activity_id : HttpRequestId) (built : HttpRequest × HttpRequest) (s : State A)
      → IsLoaded host s
      → Leaves (IsLoaded host) (begin_refresh account_id activity_id built s)
  unfolding begin_refresh set_pagination_resource set_activity_resource set_account_resource
  begin_refresh-IsLoaded account_id activity_id built s i =
      count-Leaves (IsLoaded host) s.refresh_generation _ _
        (returns-Leaves (IsLoaded host) s (err identifier_exhausted) i)
        (λ n. publish-IsLoaded host _ _ (record {
          items_shown = i.items_shown;
          more_shown = i.more_shown;
          cursor_shown = i.cursor_shown;
          unique = i.unique;
          alone = λ h. refl;
          nfts_alone = i.nfts_alone;
          nfts_unique = i.nfts_unique;
          nfts_shown = i.nfts_shown;
        }))

  pub start_refresh-IsLoaded :
      (s : State A) → IsLoaded host s → Leaves (IsLoaded host) (start_refresh s)
  unfolding start_refresh
  start_refresh-IsLoaded s i = try-Leaves (IsLoaded host) s (ensure_running s) _ i λ _.
      and_then-Leaves (IsLoaded host) (allocate_request_id s) _ (allocate-IsLoaded host s i).0
        λ account_id kept.
          and_then-Leaves (IsLoaded host) (allocate_request_id _) _
            (allocate-IsLoaded host _ kept).0
            λ activity_id kept'.
              try-Leaves (IsLoaded host) _ _ _ kept'
                λ built. begin_refresh-IsLoaded account_id activity_id built _ kept'

  pub start_load-IsLoaded :
      (big : BigUintText) (s : State A)
      → IsLoaded host s
      → Leaves (IsLoaded host) (start_load_more_activity big s)
  unfolding start_load_more_activity
  start_load-IsLoaded big s i = try-Leaves (IsLoaded host) s (ensure_running s) _ i λ _.
      if-cases (Leaves (IsLoaded host))
        (is_some s.active_refresh || is_some s.active_pagination || not s.activity_has_more) _ _
        (λ _. returns-Leaves (IsLoaded host) s _ i)
        (λ may.
          start_page-IsLoaded big s.activity_cursor s i (none_of s.active_refresh (ground arith)))

  pub cancel_load-IsLoaded :
      (s : State A) → IsLoaded host s → Leaves (IsLoaded host) (cancel_load_more_activity s)
  unfolding cancel_load_more_activity set_pagination_resource
  cancel_load-IsLoaded s i = elim (Option-cases s.active_pagination) [
    | inl idle ↦ rw (cancel_load_more_activity, idle) (returns-Leaves (IsLoaded host) s _ i)
    | inr ((g, id), is) ↦
        rw (cancel_load_more_activity, is)
          (publish-IsLoaded host _ (some id) (record {
            items_shown = i.items_shown;
            more_shown = i.more_shown;
            cursor_shown = i.cursor_shown;
            unique = i.unique;
            alone = λ h. refl;
            nfts_alone = i.nfts_alone;
            nfts_unique = i.nfts_unique;
            nfts_shown = i.nfts_shown;
          }))
  ]

  idle_refresh-IsLoaded :
      (s : State A) → IsLoaded host s → IsLoaded host (record s { active_refresh = none })
  idle_refresh-IsLoaded s i = record {
    items_shown = i.items_shown;
    more_shown = i.more_shown;
    cursor_shown = i.cursor_shown;
    unique = i.unique;
    alone = λ h. absurd cc;
    nfts_alone = i.nfts_alone;
    nfts_unique = i.nfts_unique;
    nfts_shown = i.nfts_shown;
  }

  pub finish_refresh-IsLoaded :
      (g : ℕ) (s : State A) → IsLoaded host s → Leaves (IsLoaded host) (finish_refresh g s)
  unfolding finish_refresh
  finish_refresh-IsLoaded g s i =
      if-cases (Leaves (IsLoaded host)) (not (is_current s OperationFamily.refresh g)) _ _
        (λ _. returns-Leaves (IsLoaded host) s _ i)
        (λ _.
          returns-Leaves (IsLoaded host) (record s { active_refresh = none }) _
            (idle_refresh-IsLoaded s i))

  cancel_requests-IsLoaded :
      (ids : List HttpRequestId) (s : State A)
      → IsLoaded host s
      → Leaves (IsLoaded host) (cancel_requests ids s)
  unfolding cancel_requests set_activity_resource set_account_resource
  cancel_requests-IsLoaded [] s i = returns-Leaves (IsLoaded host) s _ i
  cancel_requests-IsLoaded (id ∷ ids) s i = publish-IsLoaded host _ (id ∷ ids) i

  pub cancel_refresh-IsLoaded :
      (s : State A) → IsLoaded host s → Leaves (IsLoaded host) (cancel_refresh s)
  unfolding cancel_refresh
  cancel_refresh-IsLoaded s i =
      cancel_requests-IsLoaded (requests_of s.active_refresh) _ (idle_refresh-IsLoaded s i)
