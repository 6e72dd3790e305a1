-- ===== src/Engine/Loading/Answered.antt =====
-- The sections that publish an answer, and the invariant of the loading sections (src/engine/activity.rs, src/engine/refresh.rs,
-- src/engine/nft.rs).
use wallet_engine.Base.{ℕ, Bool, false, not, refl, Option, none, List, [], ◌∷◌, if-cases}
use wallet_engine.Base.Results.{Result, ok, err}
use wallet_engine.Base.Shuffle.{Shuffle}
use wallet_engine.Engine.Snapshot.{DomainError}
use wallet_engine.Engine.State.{
  State, ActivityRecord, ActivityPageCursor, is_current, OperationFamily,
}
use wallet_engine.Engine.State.Rules.{Leaves, returns-Leaves}
use wallet_engine.Engine.Activity.{
  ActivityHost, ActivityPage, advances, merged, sync_activity_snapshot, apply_activity_page,
  refreshed_rows, apply_refreshed_activity_page,
}
use wallet_engine.Engine.Activity.Merge.{Unique}
use wallet_engine.Engine.Activity.Pages.{merged_lem}
use wallet_engine.Engine.Loading.{
  set_activity_resource, set_pagination_resource, set_account_resource, end_page,
  finish_load_more_activity, set_component, publish_refresh_component, RefreshValue, account,
  activity,
}
use wallet_engine.Engine.Loading.Kept.{IsLoaded, publish-IsLoaded, publish_update-IsLoaded}

-- The page of a refresh, if there is one, lists no identifier twice.
abbrev pub IsFit : {A : Type 0} → RefreshValue A → Type 0
IsFit (activity (ok page)) = Unique page.items
IsFit (activity (err error)) = Unit {0}
IsFit (account result) = Unit {0}

module _ {A : Type 0} (host : ActivityHost A)
    (shuffles : (rows : List (ActivityRecord A)) → Shuffle (host.into_values rows) rows) where
  -- A synchronised state is loaded as it was before, with other rows.
  synced-IsLoaded :
      (s : State A) (rows : List (ActivityRecord A)) (c : Option ActivityPageCursor) (more : Bool)
      → Unique rows
      → IsLoaded host s
      → IsLoaded host (
          sync_activity_snapshot host
            (record s { activity = rows; activity_cursor = c; activity_has_more = more }))
  unfolding sync_activity_snapshot
  synced-IsLoaded s rows c more u i = record {
    items_shown = refl;
    more_shown = refl;
    cursor_shown = refl;
    unique = u;
    alone = i.alone;
    nfts_alone = i.nfts_alone;
    nfts_unique = i.nfts_unique;
    nfts_shown = i.nfts_shown;
  }

  apply_page-IsLoaded :
      (page : ActivityPage A) (s : State A)
      → IsLoaded host s
      → IsLoaded host (apply_activity_page host page s).0
  unfolding apply_activity_page
  apply_page-IsLoaded page s i =
      if-cases (λ (r : State A × ℕ). IsLoaded host r.0) (advances s.activity_cursor page.cursor) _ _
        (λ _.
          let (listed, _, _) = merged_lem host shuffles s.activity page.items i.unique in
          synced-IsLoaded s (merged host s.activity page.items) page.cursor page.has_more
            listed.unique i)
        (λ _. synced-IsLoaded s s.activity s.activity_cursor false i.unique i)

  refreshed_rows-IsLoaded :
      (page : ActivityPage A) (rows : List (ActivityRecord A)) (s : State A)
      → Unique page.items
      → Unique rows
      → IsLoaded host s
      → IsLoaded host (refreshed_rows host page rows s)
  unfolding refreshed_rows
  refreshed_rows-IsLoaded page [] s p u i =
      synced-IsLoaded s page.items page.cursor page.has_more p i
  refreshed_rows-IsLoaded page (x ∷ xs) s p u i =
      let (listed, _, _) = merged_lem host shuffles (x ∷ xs) page.items u in
      synced-IsLoaded s (merged host (x ∷ xs) page.items) s.activity_cursor s.activity_has_more
        listed.unique i

  end_page-IsLoaded :
      (result : Result DomainError (ActivityPage A)) (s : State A)
      → IsLoaded host s
      → Leaves (IsLoaded host) (end_page host result s)
  unfolding end_page set_pagination_resource
  end_page-IsLoaded (ok page) s i =
      publish_update-IsLoaded host _ _ _ (apply_page-IsLoaded page s i)
  end_page-IsLoaded (err error) s i = publish_update-IsLoaded host _ 0 _ i

  pub finish_load-IsLoaded :
      (g : ℕ) (result : Result DomainError (ActivityPage A)) (s : State A)
      → IsLoaded host s
      → Leaves (IsLoaded host) (finish_load_more_activity host g result s)
  unfolding finish_load_more_activity
  finish_load-IsLoaded g result s i =
      if-cases (Leaves (IsLoaded host)) (not (is_current s OperationFamily.pagination g)) _ _
        (λ _. returns-Leaves (IsLoaded host) s _ i)
        (λ _.
          end_page-IsLoaded result (record s { active_pagination = none })
            (record {
              items_shown = i.items_shown;
              more_shown = i.more_shown;
              cursor_shown = i.cursor_shown;
              unique = i.unique;
              alone = λ h. refl;
              nfts_alone = i.nfts_alone;
              nfts_unique = i.nfts_unique;
              nfts_shown = i.nfts_shown;
            }))

  set_component-IsLoaded :
      (value : RefreshValue A) (s : State A)
      → IsFit value
      → IsLoaded host s
      → IsLoaded host (set_component host value s)
  unfolding set_component set_account_resource set_activity_resource apply_refreshed_activity_page
  set_component-IsLoaded (account (ok value)) s fit i = i
  set_component-IsLoaded (account (err error)) s fit i = i
  set_component-IsLoaded (activity (ok page)) s fit i =
      refreshed_rows-IsLoaded page s.activity s fit i.unique i
  set_component-IsLoaded (activity (err error)) s fit i = i

  pub component-IsLoaded :
      (g : ℕ) (value : RefreshValue A) (s : State A)
      → IsFit value
      → IsLoaded host s
      → Leaves (IsLoaded host) (publish_refresh_component host g value s)
  unfolding publish_refresh_component
  component-IsLoaded g value s fit i =
      if-cases (Leaves (IsLoaded host)) (not (is_current s OperationFamily.refresh g)) _ _
        (λ _. returns-Leaves (IsLoaded host) s _ i)
        (λ _. publish-IsLoaded host _ tt (set_component-IsLoaded value s fit i))
