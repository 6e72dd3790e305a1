-- ===== src/Engine/Loading/Invariant.antt =====
-- The invariant of the loading sections (src/engine/activity.rs, src/engine/refresh.rs,
-- src/engine/nft.rs).
use wallet_engine.Base.{List}
use wallet_engine.Base.Shuffle.{Shuffle}
use wallet_engine.Types.Decimal.{BigUintText}
use wallet_engine.Engine.State.{State, ActivityRecord}
use wallet_engine.Engine.Activity.{ActivityHost}
use wallet_engine.Engine.Loading.Sections.{
  page, component, refreshed, nfts, nft_page, LoadSection, starts_page, cancels_page,
  starts_refresh, cancels_refresh, starts_nfts, cancels_nfts, starts_nft_page, cancels_nft_page,
  answers, run_answer, run_load,
}
use wallet_engine.Engine.Loading.Kept.{IsLoaded}
use wallet_engine.Engine.Loading.Requested.{
  start_load-IsLoaded, cancel_load-IsLoaded, finish_refresh-IsLoaded, cancel_refresh-IsLoaded,
  start_refresh-IsLoaded,
}
use wallet_engine.Engine.Loading.Answered.{IsFit, finish_load-IsLoaded, component-IsLoaded}
use wallet_engine.Engine.Loading.NftsKept.{
  start_refresh_nfts-IsLoaded, finish_refresh_nfts-IsLoaded, cancel_refresh_nfts-IsLoaded,
  start_load_nfts-IsLoaded, finish_load_nfts-IsLoaded, cancel_load_nfts-IsLoaded,
}

-- A refreshed activity page lists no identifier twice.
abbrev pub IsFitSection : {A : Type 0} → LoadSection A → Type 0
IsFitSection (answers g (component value)) = IsFit value
IsFitSection other = Unit {0}

module _ {A : Type 0} (host : ActivityHost A)
    (shuffles : (rows : List (ActivityRecord A)) → Shuffle (host.into_values rows) rows) where
  -- Every loading section keeps the state consistent: what is published is the loaded activity, its cursor
  -- and whether there is more, no activity and no NFT is listed twice, and no older page is loading while
  -- a refresh of the same list runs. A refreshed activity page lists no identifier twice, and a hash map
  -- gives its values in some order.
  pub load_section-IsLoaded :
      (big : BigUintText) (section : LoadSection A) (s : State A)
      → IsFitSection section
      → IsLoaded host s
      → IsLoaded host (run_load host big section s).0
  unfolding run_load run_answer
  load_section-IsLoaded big starts_page s fit i = (start_load-IsLoaded host big s i).left
  load_section-IsLoaded big cancels_page s fit i = (cancel_load-IsLoaded host s i).left
  load_section-IsLoaded big starts_refresh s fit i = (start_refresh-IsLoaded host s i).left
  load_section-IsLoaded big cancels_refresh s fit i = (cancel_refresh-IsLoaded host s i).left
  load_section-IsLoaded big starts_nfts s fit i = (start_refresh_nfts-IsLoaded host big s i).left
  load_section-IsLoaded big cancels_nfts s fit i = (cancel_refresh_nfts-IsLoaded host s i).left
  load_section-IsLoaded big starts_nft_page s fit i = (start_load_nfts-IsLoaded host big s i).left
  load_section-IsLoaded big cancels_nft_page s fit i = (cancel_load_nfts-IsLoaded host s i).left
  load_section-IsLoaded big (answers g (page result)) s fit i =
      (finish_load-IsLoaded host shuffles g result s i).left
  load_section-IsLoaded big (answers g (component value)) s fit i =
      (component-IsLoaded host shuffles g value s fit i).left
  load_section-IsLoaded big (answers g refreshed) s fit i =
      (finish_refresh-IsLoaded host g s i).left
  load_section-IsLoaded big (answers g (nfts result)) s fit i =
      (finish_refresh_nfts-IsLoaded host g result s i).left
  load_section-IsLoaded big (answers g (nft_page result)) s fit i =
      (finish_load_nfts-IsLoaded host g result s i).left
