-- ===== src/Engine/Loading/Nfts.antt =====
-- The critical sections that load NFTs (src/engine/nft.rs).
use Prim.Native.Nat.{min}
use Prim.Native.String.{String}
use text.Mathlib.Text.{◌==◌ as str_eq}
use wallet_engine.Base.{
  ℕ, ◌+◌, ◌-◌, Bool, false, not, ◌||◌, Option, none, some, List, [], ◌∷◌, ◌++◌, map, length,
  if◌then◌else◌, is_some,
}
use wallet_engine.Base.Words.{checked_add, u64_max}
use wallet_engine.Base.Results.{Result, ok, err}
use wallet_engine.Types.Texts.{codes}
use wallet_engine.Types.Decimal.{BigUintText}
use wallet_engine.Transport.Request.{HttpRequest, build_toncenter_v3_request}
use wallet_engine.Engine.Snapshot.{
  HttpRequestId, WalletClientConfig, NftItem, ResourceState, idle_resource, loading_resource,
  ready_resource, DomainError, WalletOperationOutcome, WalletUpdate,
}
use wallet_engine.Engine.State.{
  State, Outcome, WalletClientError, OperationFamily, identifier_exhausted, returns, and_then, try_,
  allocate_request_id, next_revision, is_current, ensure_running, nft_update,
}
use wallet_engine.Engine.SendState.{publish}
use wallet_engine.Engine.Client.{request_of}
use wallet_engine.Engine.Loading.{PageStart, skips, requests, failed_load}

pub record NftPage (A : Type 0) : Type 0 where
  pub items : List (NftItem A)
  pub raw_count : ℕ
  pub has_more : Bool

-- What the first section of `refresh_nfts` decides.
pub record NftRefreshStart : Type 0 where
  pub generation : ℕ
  pub request : HttpRequest
  pub previous_request_ids : List HttpRequestId

abbrev pub nft_page_size : ℕ
nft_page_size = 60

-- Membership in the set of the addresses that were seen.
unfoldable pub is_seen : String → List String → Bool
is_seen a [] = false
is_seen a (b ∷ seen) = str_eq b a || is_seen a seen

-- `u64::saturating_add`
abbrev pub saturating_add : ℕ → ℕ → ℕ
saturating_add a b = min (a + b) u64_max

module _ {A : Type 0} where
  -- The rows whose address `seen.insert` reports as new.
  unfoldable pub unseen : List String → List (NftItem A) → List (NftItem A)
  unseen seen [] = []
  unseen seen (x ∷ xs) =
      let rest = unseen (x.address.value ∷ seen) xs in
      let others = unseen seen xs in if is_seen x.address.value seen then others else x ∷ rest

  unfoldable pub deduplicate_nfts : List (NftItem A) → List (NftItem A)
  deduplicate_nfts items = unseen [] items

  -- The four assignments of both merges.
  unfoldable pub set_nfts : List (NftItem A) → ℕ → Bool → State A → State A
  set_nfts items offset has_more s = record s {
    snapshot = record (s.snapshot) {
      nfts = record (s.snapshot.nfts) { items = items; has_more = has_more };
    };
    nft_offset = offset;
    nfts_has_more = has_more;
  }

  unfoldable pub apply_refreshed_nft_page : NftPage A → State A → State A
  apply_refreshed_nft_page page s =
      set_nfts (deduplicate_nfts page.items) (min page.raw_count u64_max) page.has_more s

  -- The rows of a page that are not shown yet.
  unfoldable pub fresh_nfts : NftPage A → State A → List (NftItem A)
  fresh_nfts page s = unseen (map (λ x. x.address.value) s.snapshot.nfts.items) page.items

  unfoldable pub apply_nft_page : NftPage A → State A → State A × ℕ
  apply_nft_page page s =
      let items = s.snapshot.nfts.items ++ fresh_nfts page s in
      (
        set_nfts items (saturating_add s.nft_offset (min page.raw_count u64_max)) page.has_more s,
        min (length items - length s.snapshot.nfts.items) u64_max,
      )

  unfoldable pub set_nft_resource : ResourceState → State A → State A
  set_nft_resource resource s = record s {
    snapshot = record (s.snapshot) { nfts = record (s.snapshot.nfts) { resource = resource } };
  }

  unfoldable pub set_nft_pagination_resource : ResourceState → State A → State A
  set_nft_pagination_resource resource s = record s {
    snapshot = record (s.snapshot) {
      nfts = record (s.snapshot.nfts) { pagination_resource = resource };
    };
  }

  -- `state.next_revision()?; Ok(nft_update(outcome, added, &state))`
  unfoldable pub publish_nft_update :
      WalletOperationOutcome → ℕ → State A → Outcome A (WalletUpdate A)
  publish_nft_update outcome added s =
      and_then (next_revision s) λ t _. returns t (ok (nft_update outcome added t))

  unfoldable pub build_nft_page_request :
      BigUintText → WalletClientConfig A → HttpRequestId → ℕ → Result WalletClientError HttpRequest
  build_nft_page_request big config id offset =
      build_toncenter_v3_request config id (codes "nft/items") (
        (codes "owner_address", codes config.address.value)
        ∷ (codes "limit", big.to_str_radix nft_page_size)
        ∷ (codes "offset", big.to_str_radix offset)
        ∷ (codes "sort_by_last_transaction_lt", codes "true")
        ∷ [])

  -- `refresh_nfts`, from the generation on.
  unfoldable pub begin_refresh_nfts :
      HttpRequestId → HttpRequest → State A → Outcome A NftRefreshStart
  begin_refresh_nfts id request s = elim (checked_add s.nft_refresh_generation 1) [
    | none ↦ returns s (err identifier_exhausted)
    | some generation ↦
        publish
          (set_nft_pagination_resource idle_resource (
            set_nft_resource loading_resource (record s {
              nft_refresh_generation = generation;
              active_nft_refresh = some (generation, id);
              active_nft_pagination = none;
            })))
          (record {
            generation = generation;
            request = request;
            previous_request_ids =
                request_of s.active_nft_refresh ++ request_of s.active_nft_pagination;
          })
  ]

  -- The first section of `refresh_nfts`.
  unfoldable pub start_refresh_nfts : BigUintText → State A → Outcome A NftRefreshStart
  start_refresh_nfts big s = try_ s (ensure_running s) λ _. and_then (allocate_request_id s) λ t id.
      try_ t (build_nft_page_request big t.config id 0) λ request. begin_refresh_nfts id request t

  -- The last section of `refresh_nfts`, by its answer.
  unfoldable pub end_refresh_nfts :
      Result DomainError (NftPage A) → State A → Outcome A (WalletUpdate A)
  end_refresh_nfts (ok page) s =
      publish_nft_update WalletOperationOutcome.completed 0
        (set_nft_resource ready_resource (apply_refreshed_nft_page page s))
  end_refresh_nfts (err error) s =
      let (resource, outcome) = failed_load error in
      publish_nft_update outcome 0 (set_nft_resource resource s)

  unfoldable pub finish_refresh_nfts :
      ℕ → Result DomainError (NftPage A) → State A → Outcome A (WalletUpdate A)
  finish_refresh_nfts generation result s =
      if not (is_current s OperationFamily.nft_refresh generation)
      then returns s (ok (nft_update WalletOperationOutcome.superseded 0 s))
      else end_refresh_nfts result (record s { active_nft_refresh = none })

  unfoldable pub cancel_refresh_nfts : State A → Outcome A (Option HttpRequestId)
  cancel_refresh_nfts s = elim s.active_nft_refresh [
    | none ↦ returns s (ok none)
    | some (generation, id) ↦
        publish (set_nft_resource idle_resource (record s { active_nft_refresh = none })) (some id)
  ]

  -- `load_more_nfts`, from the generation on.
  unfoldable pub begin_nft_page : HttpRequestId → HttpRequest → State A → Outcome A (PageStart A)
  begin_nft_page id request s = elim (checked_add s.nft_pagination_generation 1) [
    | none ↦ returns s (err identifier_exhausted)
    | some generation ↦
        publish
          (set_nft_pagination_resource loading_resource (record s {
            nft_pagination_generation = generation;
            active_nft_pagination = some (generation, id);
          }))
          (requests generation request)
  ]

  -- The first section of `load_more_nfts`.
  unfoldable pub start_load_more_nfts : BigUintText → State A → Outcome A (PageStart A)
  start_load_more_nfts big s = try_ s (ensure_running s) λ _.
      if is_some s.active_nft_refresh || is_some s.active_nft_pagination || not s.nfts_has_more
      then returns s (ok (skips (nft_update WalletOperationOutcome.skipped 0 s)))
      else and_then (allocate_request_id s) λ t id.
        try_ t (build_nft_page_request big t.config id t.nft_offset)
          λ request. begin_nft_page id request t

  -- The last section of `load_more_nfts`, by its answer.
  unfoldable pub end_nft_page :
      Result DomainError (NftPage A) → State A → Outcome A (WalletUpdate A)
  end_nft_page (ok page) s =
      let (t, added) = apply_nft_page page s in
      publish_nft_update WalletOperationOutcome.completed added
        (set_nft_pagination_resource ready_resource t)
  end_nft_page (err error) s =
      let (resource, outcome) = failed_load error in
      publish_nft_update outcome 0 (set_nft_pagination_resource resource s)

  unfoldable pub finish_load_more_nfts :
      ℕ → Result DomainError (NftPage A) → State A → Outcome A (WalletUpdate A)
  finish_load_more_nfts generation result s =
      if not (is_current s OperationFamily.nft_pagination generation)
      then returns s (ok (nft_update WalletOperationOutcome.superseded 0 s))
      else end_nft_page result (record s { active_nft_pagination = none })

  unfoldable pub cancel_load_more_nfts : State A → Outcome A (Option HttpRequestId)
  cancel_load_more_nfts s = elim s.active_nft_pagination [
    | none ↦ returns s (ok none)
    | some (generation, id) ↦
        publish
          (set_nft_pagination_resource idle_resource (record s { active_nft_pagination = none }))
          (some id)
  ]
