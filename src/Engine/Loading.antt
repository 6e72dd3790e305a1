-- ===== src/Engine/Loading.antt =====
-- The critical sections that load activity and the account (src/engine/activity.rs,
-- src/engine/refresh.rs). Between two sections of one operation the client waits for its host; the
-- answer, parsed, is an argument of the section that follows.
pub mod Nfts
pub mod Unique
pub mod Sections
pub mod Kept
pub mod Requested
pub mod Answered
pub mod NftsKept
pub mod Invariant
use wallet_engine.Base.{
  ℕ, ◌+◌, Bool, true, false, not, ◌||◌, Option, none, some, List, [], ◌∷◌, ◌++◌, ◌==◌,
  if◌then◌else◌, is_some,
}
use wallet_engine.Base.Words.{checked_add}
use wallet_engine.Base.Results.{Result, ok, err, ◌>>=◌}
use wallet_engine.Types.Texts.{Text, codes}
use wallet_engine.Types.Decimal.{BigUintText}
use wallet_engine.Transport.Request.{HttpRequest, build_toncenter_v2_request}
use wallet_engine.Engine.Snapshot.{
  HttpRequestId, WalletClientConfig, ResourcePhase, ResourceState, idle_resource, loading_resource,
  ready_resource, failed_resource, mark_loading_cancelled, DomainError, ErrorCode, AccountSnapshot,
  WalletOperationOutcome, WalletUpdate,
}
use wallet_engine.Engine.State.{
  State, Outcome, WalletClientError, ActivityPageCursor, OperationFamily, identifier_exhausted,
  returns, and_then, try_, allocate_request_id, next_revision, is_current, ensure_running, update,
}
use wallet_engine.Engine.SendState.{publish}
use wallet_engine.Engine.Client.{requests_of, request_of}
use wallet_engine.Engine.Activity.{
  ActivityHost, ActivityPage, apply_activity_page, apply_refreshed_activity_page,
}

-- What the first section of a page load decides.
pub data PageStart (A : Type 0) : Type 0 where
  skips : WalletUpdate A → PageStart A
  requests : ℕ → HttpRequest → PageStart A

-- What the first section of `refresh` decides: the two requests, and the requests to cancel.
pub record RefreshStart : Type 0 where
  pub generation : ℕ
  pub account_request : HttpRequest
  pub activity_request : HttpRequest
  pub previous_request_ids : List HttpRequestId

pub data RefreshValue (A : Type 0) : Type 0 where
  account : Result DomainError AccountSnapshot → RefreshValue A
  activity : Result DomainError (ActivityPage A) → RefreshValue A

-- `error.code == ErrorCode::HostCancelled`
unfoldable pub is_host_cancelled : DomainError → Bool
is_host_cancelled error = elim error.code [ ErrorCode.host_cancelled ↦ true | _ ↦ false ]

-- The resource and the outcome of a failed load.
abbrev pub failed_load : DomainError → ResourceState × WalletOperationOutcome
failed_load error =
    if is_host_cancelled error
    then (idle_resource, WalletOperationOutcome.cancelled)
    else (failed_resource error, WalletOperationOutcome.failed)

unfoldable pub is_failed : ResourceState → Bool
is_failed resource = elim resource.phase [ ResourcePhase.failed ↦ true | _ ↦ false ]

-- The outcome by the count of failed resources.
unfoldable pub refresh_outcome : ResourceState → ResourceState → WalletOperationOutcome
refresh_outcome first second =
    if is_failed first
    then (if is_failed second
        then WalletOperationOutcome.failed
        else WalletOperationOutcome.partially_completed)
    else (if is_failed second
        then WalletOperationOutcome.partially_completed
        else WalletOperationOutcome.completed)

module _ {A : Type 0} where
  -- `state.next_revision()?; Ok(update(outcome, added, &state))`
  unfoldable pub publish_update : WalletOperationOutcome → ℕ → State A → Outcome A (WalletUpdate A)
  publish_update outcome added s =
      and_then (next_revision s) λ t _. returns t (ok (update outcome added t))

  unfoldable pub set_activity_resource : ResourceState → State A → State A
  set_activity_resource resource s = record s {
    snapshot = record (s.snapshot) {
      activity = record (s.snapshot.activity) { resource = resource };
    };
  }

  unfoldable pub set_pagination_resource : ResourceState → State A → State A
  set_pagination_resource resource s = record s {
    snapshot = record (s.snapshot) {
      activity = record (s.snapshot.activity) { pagination_resource = resource };
    };
  }

  unfoldable pub set_account_resource : ResourceState → State A → State A
  set_account_resource resource s = record s {
    snapshot = record (s.snapshot) { account_resource = resource };
  }

  unfoldable pub build_activity_page_request :
      BigUintText
      → WalletClientConfig A
      → ActivityPageCursor
      → HttpRequestId
      → Result WalletClientError HttpRequest
  build_activity_page_request big config cursor id =
      build_toncenter_v2_request config id (codes "getTransactions") (
        (codes "address", codes config.address.value)
        ∷ (codes "limit", codes "10")
        ∷ (codes "lt", big.to_str_radix cursor.logical_time)
        ∷ (codes "hash", codes cursor.hash.text)
        ∷ [])

  unfoldable pub build_refresh_requests :
      WalletClientConfig A
      → HttpRequestId
      → HttpRequestId
      → Result WalletClientError (HttpRequest × HttpRequest)
  build_refresh_requests config account_id activity_id = do
    first ←
        build_toncenter_v2_request config account_id (codes "getAddressInformation")
          ((codes "address", codes config.address.value) ∷ [])
    second ←
        build_toncenter_v2_request config activity_id (codes "getTransactions")
          ((codes "address", codes config.address.value) ∷ (codes "limit", codes "10") ∷ [])
    ok (first, second)

  -- `load_more_activity`, from the generation on.
  unfoldable pub begin_page : HttpRequestId → HttpRequest → State A → Outcome A (PageStart A)
  begin_page id request s = elim (checked_add s.pagination_generation 1) [
    | none ↦ returns s (err identifier_exhausted)
    | some generation ↦
        publish
          (set_pagination_resource loading_resource (record s {
            pagination_generation = generation;
            active_pagination = some (generation, id);
          }))
          (requests generation request)
  ]

  -- The same, from the cursor on.
  unfoldable pub start_page :
      BigUintText → Option ActivityPageCursor → State A → Outcome A (PageStart A)
  start_page big none s = returns s (ok (skips (update WalletOperationOutcome.skipped 0 s)))
  start_page big (some cursor) s = and_then (allocate_request_id s) λ t id.
      try_ t (build_activity_page_request big t.config cursor id) λ request. begin_page id request t

  -- The first section of `load_more_activity`.
  unfoldable pub start_load_more_activity : BigUintText → State A → Outcome A (PageStart A)
  start_load_more_activity big s = try_ s (ensure_running s) λ _.
      if is_some s.active_refresh || is_some s.active_pagination || not s.activity_has_more
      then returns s (ok (skips (update WalletOperationOutcome.skipped 0 s)))
      else start_page big s.activity_cursor s

  -- The section of `cancel_load_more_activity`, by the load that was taken.
  unfoldable pub cancel_load_more_activity : State A → Outcome A (Option HttpRequestId)
  cancel_load_more_activity s = elim s.active_pagination [
    | none ↦ returns s (ok none)
    | some (generation, id) ↦
        publish (set_pagination_resource idle_resource (record s { active_pagination = none }))
          (some id)
  ]

  -- `refresh`, from the generation on.
  unfoldable pub begin_refresh :
      HttpRequestId → HttpRequestId → HttpRequest × HttpRequest → State A → Outcome A RefreshStart
  begin_refresh account_id activity_id built s = elim (checked_add s.refresh_generation 1) [
    | none ↦ returns s (err identifier_exhausted)
    | some generation ↦
        publish
          (set_pagination_resource idle_resource (
            set_activity_resource loading_resource (
              set_account_resource loading_resource (record s {
                refresh_generation = generation;
                active_refresh = some (generation, account_id ∷ activity_id ∷ []);
                active_pagination = none;
              }))))
          (record {
            generation = generation;
            account_request = built.0;
            activity_request = built.1;
            previous_request_ids = requests_of s.active_refresh ++ request_of s.active_pagination;
          })
  ]

  -- The first section of `refresh`.
  unfoldable pub start_refresh : State A → Outcome A RefreshStart
  start_refresh s = try_ s (ensure_running s) λ _. and_then (allocate_request_id s) λ t account_id.
      and_then (allocate_request_id t) λ u activity_id.
        try_ u (build_refresh_requests s.config account_id activity_id)
          λ built. begin_refresh account_id activity_id built u

  -- The last section of `refresh`.
  unfoldable pub finish_refresh : ℕ → State A → Outcome A (WalletUpdate A)
  finish_refresh generation s =
      if not (is_current s OperationFamily.refresh generation)
      then returns s (ok (update WalletOperationOutcome.superseded 0 s))
      else let t = record s { active_refresh = none } in
        returns t (
          ok
            (update (refresh_outcome t.snapshot.account_resource t.snapshot.activity.resource) 0 t))

  -- The resources that `cancel_refresh` marks, by the requests that were taken.
  unfoldable pub cancel_requests : List HttpRequestId → State A → Outcome A (List HttpRequestId)
  cancel_requests [] s = returns s (ok [])
  cancel_requests (id ∷ ids) s =
      publish
        (set_activity_resource (mark_loading_cancelled s.snapshot.activity.resource)
          (set_account_resource (mark_loading_cancelled s.snapshot.account_resource) s))
        (id ∷ ids)

  unfoldable pub cancel_refresh : State A → Outcome A (List HttpRequestId)
  cancel_refresh s =
      cancel_requests (requests_of s.active_refresh) (record s { active_refresh = none })

module _ {A : Type 0} (host : ActivityHost A) where
  -- The last section of `load_more_activity`, by its answer.
  unfoldable pub end_page :
      Result DomainError (ActivityPage A) → State A → Outcome A (WalletUpdate A)
  end_page (ok page) s =
      let (t, added) = apply_activity_page host page s in
      publish_update WalletOperationOutcome.completed added
        (set_pagination_resource ready_resource t)
  end_page (err error) s =
      let (resource, outcome) = failed_load error in
      publish_update outcome 0 (set_pagination_resource resource s)

  unfoldable pub finish_load_more_activity :
      ℕ → Result DomainError (ActivityPage A) → State A → Outcome A (WalletUpdate A)
  finish_load_more_activity generation result s =
      if not (is_current s OperationFamily.pagination generation)
      then returns s (ok (update WalletOperationOutcome.superseded 0 s))
      else end_page result (record s { active_pagination = none })

  -- The match of `publish_refresh_component`.
  unfoldable pub set_component : RefreshValue A → State A → State A
  set_component (account (ok value)) s =
      set_account_resource ready_resource
        (record s { snapshot = record (s.snapshot) { account = some value } })
  set_component (account (err error)) s = set_account_resource (failed_resource error) s
  set_component (activity (ok page)) s =
      set_activity_resource ready_resource (apply_refreshed_activity_page host page s)
  set_component (activity (err error)) s = set_activity_resource (failed_resource error) s

  unfoldable pub publish_refresh_component : ℕ → RefreshValue A → State A → Outcome A (Unit {0})
  publish_refresh_component generation value s =
      if not (is_current s OperationFamily.refresh generation)
      then returns s (ok tt)
      else publish (set_component value s) tt
