-- ===== src/Engine/Comment/Pages.antt =====
-- The pages of a wallet's key-change history, read during a decryption
-- (`key_change_history` of src/engine/encrypted_comment.rs, and src/engine/key_history.rs).
use wallet_engine.Base.{ℕ, zero, suc, not, Option, none, some, List, [], ◌∷◌, ◌++◌, if◌then◌else◌}
use wallet_engine.Base.Bytes.{Bytes}
use wallet_engine.Base.Results.{Result, ok, err}
use wallet_engine.Types.Texts.{Text, codes}
use wallet_engine.Types.Decimal.{BigUintText}
use wallet_engine.KeyHistory.{KeyChange}
use wallet_engine.Transport.Request.{HttpRequest, build_toncenter_v3_request}
use wallet_engine.Engine.Snapshot.{HttpRequestId, WalletClientConfig}
use wallet_engine.Engine.State.{
  State, Outcome, WalletClientError, state_unavailable, OperationFamily, returns, and_then, try_,
  allocate_request_id, is_current,
}
use wallet_engine.Engine.Resolution.{saturating_add}
use wallet_engine.Engine.Comment.{
  CommentHost, KeyChangePage, World, fail_encrypted_comment_lookup, finish_resolution_request,
  has_more, history_reaches, max_key_change_pages, or_discard, start_resolution_request,
  page_requested, page_answered, page_read,
}

module _ {A : Type 0} where
  unfoldable pub build_key_change_request :
      BigUintText → WalletClientConfig A → HttpRequestId → ℕ → Result WalletClientError HttpRequest
  unfolding build_toncenter_v3_request
  build_key_change_request big config id offset =
      build_toncenter_v3_request config id (codes "actions") (
        (codes "account", codes config.address.value)
        ∷ (codes "action_type", codes "change_wallet_key")
        ∷ (codes "limit", codes "100")
        ∷ (codes "offset", big.to_str_radix offset)
        ∷ (codes "sort", codes "desc")
        ∷ [])

  -- The section that asks for a page.
  unfoldable pub request_page : BigUintText → ℕ → ℕ → State A → Outcome A HttpRequest
  unfolding is_current allocate_request_id build_key_change_request try_
  request_page big generation offset s =
      if not (is_current s OperationFamily.resolution generation)
      then returns s (err state_unavailable)
      else and_then (allocate_request_id s) λ t id.
        try_ t (build_key_change_request big t.config id offset) λ request. returns t (ok request)

  -- The parsed answer, or the error of the exchange or of the parser.
  unfoldable pub page_answer : ℕ → Result Text KeyChangePage → State A → Outcome A KeyChangePage
  unfolding fail_encrypted_comment_lookup
  page_answer generation (ok page) s = returns s (ok page)
  page_answer generation (err message) s = fail_encrypted_comment_lookup generation message s

  -- The last section of `key_change_history`.
  unfoldable pub finish_key_changes : ℕ → List KeyChange → State A → Outcome A (List KeyChange)
  unfolding is_current
  finish_key_changes generation changes s =
      if not (is_current s OperationFamily.resolution generation)
      then returns s (err state_unavailable)
      else returns (record s { key_changes = some changes }) (ok changes)

  module _ (big : BigUintText) (host : CommentHost A) (world : World A) where
    -- `execute_encrypted_comment_request`, with the answer parsed.
    unfoldable pub execute_page : ℕ → ℕ → HttpRequest → State A → Outcome A KeyChangePage
    unfolding or_discard start_resolution_request finish_resolution_request page_answer
    execute_page generation n request s =
        and_then
          (or_discard generation
            (start_resolution_request generation request.id (world.others (page_requested n) s)))
          λ t _.
            and_then
              (or_discard generation (
                finish_resolution_request generation request.id (world.others (page_answered n) t)))
              λ u _. page_answer generation (world.page n) u

    -- The loop over the pages: what is left of it, the number of pages read, the offset and what
    -- was read.
    unfoldable pub read_pages :
        ℕ → ℕ → ℕ → ℕ → List KeyChange → State A → Outcome A (List KeyChange)
    unfolding request_page execute_page finish_key_changes or_discard has_more
    read_pages zero generation n offset changes s =
        finish_key_changes generation changes (world.others (page_read n) s)
    read_pages (suc room) generation n offset changes s =
        and_then
          (or_discard generation
            (request_page big generation offset (world.others (page_read n) s)))
          λ t request. and_then (execute_page generation n request t) λ u page.
            let read = changes ++ page.changes in
            let rest =
              read_pages room generation (suc n) (saturating_add offset page.raw_count) read u in
            if has_more page
            then rest
            else finish_key_changes generation read (world.others (page_read (suc n)) u)

    -- `key_change_history`, by the history that is cached.
    unfoldable pub cached_or_read :
        ℕ → Bytes → Option (List KeyChange) → State A → Outcome A (List KeyChange)
    unfolding read_pages history_reaches
    cached_or_read generation current_public_key none s =
        read_pages max_key_change_pages generation 0 0 [] s
    cached_or_read generation current_public_key (some changes) s =
        let read = read_pages max_key_change_pages generation 0 0 [] s in
        if history_reaches changes current_public_key then returns s (ok changes) else read

    unfoldable pub key_change_history : ℕ → Bytes → State A → Outcome A (List KeyChange)
    unfolding cached_or_read
    key_change_history generation current_public_key s =
        cached_or_read generation current_public_key s.key_changes s
