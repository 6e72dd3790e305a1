-- ===== src/Engine/Loading/NftsKept.antt =====
-- The NFT sections and the invariant of the loading sections (src/engine/nft.rs).
use wallet_engine.Base.{
  ℕ, Bool, true, not, ◌||◌, ◌≡◌, refl, ap, ◌∙◌, arith, Option, none, some, List, is_some, if-cases,
  Option-cases, inl, inr,
}
use wallet_engine.Base.Results.{Result, ok, err}
use wallet_engine.Types.Decimal.{BigUintText}
use wallet_engine.Transport.Request.{HttpRequest}
use wallet_engine.Engine.Snapshot.{HttpRequestId, DomainError, NftItem}
use wallet_engine.Engine.State.{
  State, allocate_request_id, identifier_exhausted, is_current, OperationFamily, ensure_running,
}
use wallet_engine.Engine.State.Rules.{
  Leaves, and_then-Leaves, try-Leaves, count-Leaves, returns-Leaves,
}
use wallet_engine.Engine.Activity.{ActivityHost}
use wallet_engine.Engine.Loading.Unique.{
  NftsUnique, addresses, unseen-Unique, deduplicate_nfts-Unique, append-Unique,
}
use wallet_engine.Engine.Loading.Nfts.{
  NftPage, set_nfts, apply_refreshed_nft_page, fresh_nfts, apply_nft_page, set_nft_resource,
  set_nft_pagination_resource, begin_refresh_nfts, start_refresh_nfts, end_refresh_nfts,
  finish_refresh_nfts, cancel_refresh_nfts, begin_nft_page, start_load_more_nfts, end_nft_page,
  finish_load_more_nfts, cancel_load_more_nfts,
}
use wallet_engine.Engine.Loading.Kept.{
  IsLoaded, LoadView, publish-IsLoaded, publish_nft_update-IsLoaded, allocate-IsLoaded,
}
use wallet_engine.Engine.Loading.Requested.{none_of}

module _ {A : Type 0} (host : ActivityHost A) where
  -- The fields of the NFT operations, replaced.
  nfts-IsLoaded :
      (s : State A) (refresh page : Option (ℕ × HttpRequestId))
      → (is_some refresh ≡ true → page ≡ none)
      → IsLoaded host s
      → IsLoaded host (record s { active_nft_refresh = refresh; active_nft_pagination = page })
  nfts-IsLoaded s refresh page alone i = record {
    items_shown = i.items_shown;
    more_shown = i.more_shown;
    cursor_shown = i.cursor_shown;
    unique = i.unique;
    alone = i.alone;
    nfts_alone = alone;
    nfts_unique = i.nfts_unique;
    nfts_shown = i.nfts_shown;
  }

  set_nfts-IsLoaded :
      (s : State A) (items : List (NftItem A)) (offset : ℕ) (more : Bool)
      → NftsUnique items
      → IsLoaded host s
      → IsLoaded host (set_nfts items offset more s)
  unfolding set_nfts
  set_nfts-IsLoaded s items offset more u i = record {
    items_shown = i.items_shown;
    more_shown = i.more_shown;
    cursor_shown = i.cursor_shown;
    unique = i.unique;
    alone = i.alone;
    nfts_alone = i.nfts_alone;
    nfts_unique = u;
    nfts_shown = refl;
  }

  begin_refresh_nfts-IsLoaded :
      (id : HttpRequestId) (request : HttpRequest) (s : State A)
      → IsLoaded host s
      → Leaves (IsLoaded host) (begin_refresh_nfts id request s)
  unfolding begin_refresh_nfts set_nft_resource set_nft_pagination_resource
  begin_refresh_nfts-IsLoaded id request s i =
      count-Leaves (IsLoaded host) s.nft_refresh_generation _ _
        (returns-Leaves (IsLoaded host) s (err identifier_exhausted) i)
        (λ n. publish-IsLoaded host _ _ (nfts-IsLoaded s (some (n, id)) none (λ _. refl) i))

  pub start_refresh_nfts-IsLoaded :
      (big : BigUintText) (s : State A)
      → IsLoaded host s
      → Leaves (IsLoaded host) (start_refresh_nfts big s)
  unfolding start_refresh_nfts
  start_refresh_nfts-IsLoaded big s i = try-Leaves (IsLoaded host) s (ensure_running s) _ i λ _.
      and_then-Leaves (IsLoaded host) (allocate_request_id s) _ (allocate-IsLoaded host s i).0
        λ id kept.
          try-Leaves (IsLoaded host) _ _ _ kept
            λ request. begin_refresh_nfts-IsLoaded id request _ kept

  end_refresh_nfts-IsLoaded :
      (result : Result DomainError (NftPage A)) (s : State A)
      → IsLoaded host s
      → Leaves (IsLoaded host) (end_refresh_nfts result s)
  unfolding end_refresh_nfts set_nft_resource apply_refreshed_nft_page
  end_refresh_nfts-IsLoaded (ok page) s i =
      publish_nft_update-IsLoaded host _ 0 _
        (set_nfts-IsLoaded s _ _ page.has_more (deduplicate_nfts-Unique page.items) i)
  end_refresh_nfts-IsLoaded (err error) s i = publish_nft_update-IsLoaded host _ 0 _ i

  pub finish_refresh_nfts-IsLoaded :
      (g : ℕ) (result : Result DomainError (NftPage A)) (s : State A)
      → IsLoaded host s
      → Leaves (IsLoaded host) (finish_refresh_nfts g result s)
  unfolding finish_refresh_nfts
  finish_refresh_nfts-IsLoaded g result s i =
      if-cases (Leaves (IsLoaded host)) (not (is_current s OperationFamily.nft_refresh g)) _ _
        (λ _. returns-Leaves (IsLoaded host) s _ i)
        (λ _.
          end_refresh_nfts-IsLoaded result _
            (nfts-IsLoaded s none s.active_nft_pagination (λ h. absurd cc) i))

  pub cancel_refresh_nfts-IsLoaded :
      (s : State A) → IsLoaded host s → Leaves (IsLoaded host) (cancel_refresh_nfts s)
  unfolding cancel_refresh_nfts set_nft_resource
  cancel_refresh_nfts-IsLoaded s i = elim (Option-cases s.active_nft_refresh) [
    | inl idle ↦ rw (cancel_refresh_nfts, idle) (returns-Leaves (IsLoaded host) s _ i)
    | inr ((g, id), is) ↦
        rw (cancel_refresh_nfts, is)
          (publish-IsLoaded host _ (some id)
            (nfts-IsLoaded s none s.active_nft_pagination (λ h. absurd cc) i))
  ]

  begin_nft_page-IsLoaded :
      (id : HttpRequestId) (request : HttpRequest) (s : State A)
      → IsLoaded host s
      → s.active_nft_refresh ≡ none
      → Leaves (IsLoaded host) (begin_nft_page id request s)
  unfolding begin_nft_page set_nft_pagination_resource
  begin_nft_page-IsLoaded id request s i idle =
      count-Leaves (IsLoaded host) s.nft_pagination_generation _ _
        (returns-Leaves (IsLoaded host) s (err identifier_exhausted) i)
        (λ n. publish-IsLoaded host _ _ (
          nfts-IsLoaded s s.active_nft_refresh (some (n, id))
            (λ (h : is_some s.active_nft_refresh ≡ true). absurd (ground arith)) i))

  pub start_load_nfts-IsLoaded :
      (big : BigUintText) (s : State A)
      → IsLoaded host s
      → Leaves (IsLoaded host) (start_load_more_nfts big s)
  unfolding start_load_more_nfts
  start_load_nfts-IsLoaded big s i = try-Leaves (IsLoaded host) s (ensure_running s) _ i λ _.
      if-cases (Leaves (IsLoaded host))
        (is_some s.active_nft_refresh || is_some s.active_nft_pagination || not s.nfts_has_more) _ _
        (λ _. returns-Leaves (IsLoaded host) s _ i)
        (λ may.
          let (allocated, same) = allocate-IsLoaded host s i in
          and_then-Leaves (IsLoaded host) (allocate_request_id s) _ allocated λ id kept.
            try-Leaves (IsLoaded host) _ _ _ kept λ request.
              begin_nft_page-IsLoaded id request _ kept (
                ap (λ (v : LoadView A). v.active_nft_refresh) same
                ∙ none_of s.active_nft_refresh (ground arith)))

  end_nft_page-IsLoaded :
      (result : Result DomainError (NftPage A)) (s : State A)
      → IsLoaded host s
      → Leaves (IsLoaded host) (end_nft_page result s)
  unfolding end_nft_page set_nft_pagination_resource apply_nft_page fresh_nfts
  end_nft_page-IsLoaded (ok page) s i =
      let (unique, apart) = unseen-Unique (addresses s.snapshot.nfts.items) page.items in
      publish_nft_update-IsLoaded host _ _ _ (
        set_nfts-IsLoaded s _ _ page.has_more
          (append-Unique s.snapshot.nfts.items _ i.nfts_unique unique apart) i)
  end_nft_page-IsLoaded (err error) s i = publish_nft_update-IsLoaded host _ 0 _ i

  pub finish_load_nfts-IsLoaded :
      (g : ℕ) (result : Result DomainError (NftPage A)) (s : State A)
      → IsLoaded host s
      → Leaves (IsLoaded host) (finish_load_more_nfts g result s)
  unfolding finish_load_more_nfts
  finish_load_nfts-IsLoaded g result s i =
      if-cases (Leaves (IsLoaded host)) (not (is_current s OperationFamily.nft_pagination g)) _ _
        (λ _. returns-Leaves (IsLoaded host) s _ i)
        (λ _.
          end_nft_page-IsLoaded result _ (nfts-IsLoaded s s.active_nft_refresh none (λ _. refl) i))

  pub cancel_load_nfts-IsLoaded :
      (s : State A) → IsLoaded host s → Leaves (IsLoaded host) (cancel_load_more_nfts s)
  unfolding cancel_load_more_nfts set_nft_pagination_resource
  cancel_load_nfts-IsLoaded s i = elim (Option-cases s.active_nft_pagination) [
    | inl idle ↦ rw (cancel_load_more_nfts, idle) (returns-Leaves (IsLoaded host) s _ i)
    | inr ((g, id), is) ↦
        rw (cancel_load_more_nfts, is)
          (publish-IsLoaded host _ (some id)
            (nfts-IsLoaded s s.active_nft_refresh none (λ _. refl) i))
  ]
