-- ===== src/Engine/Loading/Sections.antt =====
-- Every critical section that loads activity, the account or NFTs (src/engine/activity.rs,
-- src/engine/refresh.rs, src/engine/nft.rs), as one step of the client's state.
use wallet_engine.Base.{ℕ, false, ◌≡◌, refl, List, []}
use wallet_engine.Base.Results.{Result}
use wallet_engine.Types.Decimal.{BigUintText}
use wallet_engine.Engine.Snapshot.{DomainError}
use wallet_engine.Engine.State.{State, Outcome, OperationFamily, is_current}
use wallet_engine.Engine.Activity.{ActivityHost, ActivityPage}
use wallet_engine.Engine.Loading.{
  RefreshValue, start_load_more_activity, cancel_load_more_activity, finish_load_more_activity,
  start_refresh, publish_refresh_component, finish_refresh, cancel_refresh,
}
use wallet_engine.Engine.Loading.Nfts.{
  NftPage, start_refresh_nfts, finish_refresh_nfts, cancel_refresh_nfts, start_load_more_nfts,
  finish_load_more_nfts, cancel_load_more_nfts,
}

-- The sections that publish an answer of the host.
pub data Answer (A : Type 0) : Type 0 where
  page : Result DomainError (ActivityPage A) → Answer A
  component : RefreshValue A → Answer A
  refreshed : Answer A
  nfts nft_page : Result DomainError (NftPage A) → Answer A

pub data LoadSection (A : Type 0) : Type 0 where
  starts_page cancels_page starts_refresh cancels_refresh : LoadSection A
  starts_nfts cancels_nfts starts_nft_page cancels_nft_page : LoadSection A
  answers : ℕ → Answer A → LoadSection A

abbrev pub family : {A : Type 0} → Answer A → OperationFamily
family (page result) = OperationFamily.pagination
family (component value) = OperationFamily.refresh
family refreshed = OperationFamily.refresh
family (nfts result) = OperationFamily.nft_refresh
family (nft_page result) = OperationFamily.nft_pagination

abbrev effect : {A X : Type 0} → Outcome A X → State A × List ℕ
effect o = (o.state, o.woken)

module _ {A : Type 0} (host : ActivityHost A) where
  -- The state after an answer to the operation of a generation, and the channels that were sent to.
  unfoldable pub run_answer : ℕ → Answer A → State A → State A × List ℕ
  run_answer g (page result) s = effect (finish_load_more_activity host g result s)
  run_answer g (component value) s = effect (publish_refresh_component host g value s)
  run_answer g refreshed s = effect (finish_refresh g s)
  run_answer g (nfts result) s = effect (finish_refresh_nfts g result s)
  run_answer g (nft_page result) s = effect (finish_load_more_nfts g result s)

  unfoldable pub run_load : BigUintText → LoadSection A → State A → State A × List ℕ
  run_load big starts_page s = effect (start_load_more_activity big s)
  run_load big cancels_page s = effect (cancel_load_more_activity s)
  run_load big starts_refresh s = effect (start_refresh s)
  run_load big cancels_refresh s = effect (cancel_refresh s)
  run_load big starts_nfts s = effect (start_refresh_nfts big s)
  run_load big cancels_nfts s = effect (cancel_refresh_nfts s)
  run_load big starts_nft_page s = effect (start_load_more_nfts big s)
  run_load big cancels_nft_page s = effect (cancel_load_more_nfts s)
  run_load big (answers g answer) s = run_answer g answer s

  -- An answer to an operation whose generation is not the active one changes nothing and wakes nobody.
  pub late_answer :
      (g : ℕ) (answer : Answer A) (s : State A)
      → is_current s (family answer) g ≡ false
      → run_answer g answer s ≡ (s, [])
  unfolding run_answer finish_load_more_activity publish_refresh_component finish_refresh
      finish_refresh_nfts finish_load_more_nfts
  late_answer g (page result) s h = rw h refl
  late_answer g (component value) s h = rw h refl
  late_answer g refreshed s h = rw h refl
  late_answer g (nfts result) s h = rw h refl
  late_answer g (nft_page result) s h = rw h refl
