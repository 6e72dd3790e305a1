-- ===== src/Engine/Loading/Kept.antt =====
-- What every loading section keeps of the state (src/engine/activity.rs, src/engine/refresh.rs,
-- src/engine/nft.rs).

use wallet_engine.Base.{
  ℕ, Bool, true, ◌≡◌, refl, sym, subst, Option, none, some, List, map, is_some, Option-cases, inl,
  inr,
}
use wallet_engine.Base.Words.{checked_add}
use wallet_engine.Engine.Snapshot.{
  HttpRequestId, Network, ActivityItem, ActivityCursor, NftItem, WalletOperationOutcome,
}
use wallet_engine.Engine.State.{
  State, ActivityRecord, ActivityPageCursor, with_revision, next_revision, allocate_request_id,
}
use wallet_engine.Engine.State.Rules.{Leaves, and_then-Leaves, returns-Leaves, next_revision-Leaves}
use wallet_engine.Engine.SendState.{publish}
use wallet_engine.Engine.Activity.{ActivityHost, record_snapshot, cursor_snapshot}
use wallet_engine.Engine.Activity.Merge.{Unique}
use wallet_engine.Engine.Loading.{publish_update}
use wallet_engine.Engine.Loading.Unique.{NftsUnique}
use wallet_engine.Engine.Loading.Nfts.{publish_nft_update}

-- The part of the state that the loading sections share with the snapshot.
pub record LoadView (A : Type 0) : Type 0 where
  pub network : Network
  pub activity : List (ActivityRecord A)
  pub activity_cursor : Option ActivityPageCursor
  pub activity_has_more : Bool
  pub shown_activity : List (ActivityItem A)
  pub shown_activity_more : Bool
  pub shown_cursor : Option ActivityCursor
  pub active_refresh : Option (ℕ × List HttpRequestId)
  pub active_pagination : Option (ℕ × HttpRequestId)
  pub active_nft_refresh : Option (ℕ × HttpRequestId)
  pub active_nft_pagination : Option (ℕ × HttpRequestId)
  pub shown_nfts : List (NftItem A)
  pub shown_nfts_more : Bool
  pub nfts_has_more : Bool

abbrev pub load_view : {A : Type 0} → State A → LoadView A
load_view s = record {
  network = s.config.network;
  activity = s.activity;
  activity_cursor = s.activity_cursor;
  activity_has_more = s.activity_has_more;
  shown_activity = s.snapshot.activity.items;
  shown_activity_more = s.snapshot.activity.has_more;
  shown_cursor = s.snapshot.activity_cursor;
  active_refresh = s.active_refresh;
  active_pagination = s.active_pagination;
  active_nft_refresh = s.active_nft_refresh;
  active_nft_pagination = s.active_nft_pagination;
  shown_nfts = s.snapshot.nfts.items;
  shown_nfts_more = s.snapshot.nfts.has_more;
  nfts_has_more = s.nfts_has_more;
}

module _ {A : Type 0} (host : ActivityHost A) where
  pub record IsLoadedView (v : LoadView A) : Type 0 where
    -- The published activity is the state's.
    pub items_shown : v.shown_activity ≡ map (record_snapshot host v.network) v.activity
    pub more_shown : v.shown_activity_more ≡ v.activity_has_more
    pub cursor_shown :
        v.shown_cursor ≡ elim v.activity_cursor [ none ↦ none | some c ↦ some (cursor_snapshot c) ]
    pub unique : Unique v.activity
    -- No older page is loading while a refresh runs.
    pub alone : is_some v.active_refresh ≡ true → v.active_pagination ≡ none
    pub nfts_alone : is_some v.active_nft_refresh ≡ true → v.active_nft_pagination ≡ none
    pub nfts_unique : NftsUnique v.shown_nfts
    pub nfts_shown : v.shown_nfts_more ≡ v.nfts_has_more

  abbrev pub IsLoaded : State A → Type 0
  IsLoaded s = IsLoadedView (load_view s)

  pub next_revision-IsLoaded : (s : State A) → IsLoaded s → Leaves IsLoaded (next_revision s)
  unfolding with_revision
  next_revision-IsLoaded s i = next_revision-Leaves IsLoaded s i (λ n. i)

  pub publish-IsLoaded :
      {X : Type 0} (s : State A) (x : X) → IsLoaded s → Leaves IsLoaded (publish s x)
  unfolding publish
  publish-IsLoaded s x i = record { left = (next_revision-IsLoaded s i).left }

  pub publish_update-IsLoaded :
      (outcome : WalletOperationOutcome) (added : ℕ) (s : State A)
      → IsLoaded s
      → Leaves IsLoaded (publish_update outcome added s)
  unfolding publish_update
  publish_update-IsLoaded outcome added s i =
      and_then-Leaves IsLoaded (next_revision s) _ (next_revision-IsLoaded s i)
        (λ _ kept. returns-Leaves IsLoaded _ _ kept)

  pub publish_nft_update-IsLoaded :
      (outcome : WalletOperationOutcome) (added : ℕ) (s : State A)
      → IsLoaded s
      → Leaves IsLoaded (publish_nft_update outcome added s)
  unfolding publish_nft_update
  publish_nft_update-IsLoaded outcome added s i =
      and_then-Leaves IsLoaded (next_revision s) _ (next_revision-IsLoaded s i)
        (λ _ kept. returns-Leaves IsLoaded _ _ kept)

  pub allocate-IsLoaded :
      (s : State A)
      → IsLoaded s
      → Leaves IsLoaded (allocate_request_id s)
        × (load_view (allocate_request_id s).state ≡ load_view s)
  unfolding allocate_request_id
  allocate-IsLoaded s i =
      let same : load_view (allocate_request_id s).state ≡ load_view s =
        elim (Option-cases (checked_add s.next_id 1)) [
          | inl absent ↦ rw (allocate_request_id, absent) refl
          | inr (n, is) ↦ rw (allocate_request_id, is) refl
        ] in
      (record { left = subst IsLoadedView (sym same) i }, same)
