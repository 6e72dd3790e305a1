-- ===== src/Engine/Comment/Slot.antt =====
-- A generation that lets go of its slot, and the pages that are read meanwhile
-- (src/engine/encrypted_comment.rs).
use wallet_engine.Base.{
  ℕ, zero, suc, ◌≡◌, refl, false, Option, none, some, List, [], ◌++◌, Bool-cases, inl, inr,
  if-cases,
}
use wallet_engine.Base.Bytes.{Bytes}
use wallet_engine.Base.Results.{Result, ok, err, Result-cases}
use wallet_engine.KeyHistory.{KeyChange}
use wallet_engine.Transport.Request.{HttpRequest}
use wallet_engine.Types.Texts.{Text}
use wallet_engine.Types.Decimal.{BigUintText}
use wallet_engine.Engine.State.{
  State, Outcome, WalletClientError, OperationFamily, and_then, is_current, is_generation,
}
use wallet_engine.Engine.Resolution.{saturating_add}
use wallet_engine.Engine.Comment.{
  World, CommentHost, KeyChangePage, discard_encrypted_comment_operation, fail_encrypted_comment,
  fail_encrypted_comment_lookup, complete_encrypted_comment_operation, or_discard, has_more,
  history_reaches, max_key_change_pages, start_resolution_request, finish_resolution_request,
  page_requested, page_answered, page_read,
}
use wallet_engine.Engine.Comment.Pages.{
  request_page, finish_key_changes, execute_page, read_pages, page_answer, cached_or_read,
}

module _ {A : Type 0} where
  -- The generation does not hold the slot.
  abbrev pub IsFree : ℕ → State A → Type 0
  IsFree generation s = is_current s OperationFamily.resolution generation ≡ false

  pub discard-IsFree :
      (generation : ℕ) (s : State A)
      → IsFree generation (discard_encrypted_comment_operation generation s)
  unfolding discard_encrypted_comment_operation is_current is_generation
  discard-IsFree generation s =
      elim (Bool-cases (is_current s OperationFamily.resolution generation)) [
        | inl holds ↦ rw holds refl
        | inr other ↦ rw other other
      ]

  pub complete-IsFree :
      {X : Type 0} (generation : ℕ) (result : Result WalletClientError X) (s : State A)
      → IsFree generation (complete_encrypted_comment_operation generation result s).state
  unfolding complete_encrypted_comment_operation is_current is_generation
  complete-IsFree generation result s =
      elim (Bool-cases (is_current s OperationFamily.resolution generation)) [
        | inl holds ↦ rw holds refl
        | inr other ↦ rw other other
      ]

  -- A section that fails leaves the slot free.
  unfoldable pub FailsFree : {X : Type 0} → ℕ → Outcome A X → Type 0
  FailsFree generation o = (e : WalletClientError) → o.result ≡ err e → IsFree generation o.state

  pub and_then-FailsFree :
      {X Y : Type 0} (generation : ℕ) (o : Outcome A X) (next : State A → X → Outcome A Y)
      → FailsFree generation o
      → ((t : State A) (v : X) → FailsFree generation (next t v))
      → FailsFree generation (and_then o next)
  unfolding and_then FailsFree
  and_then-FailsFree generation o next first later = elim (Result-cases o.result) [
    | inl (v, is) ↦ rw is (later o.state v)
    | inr (e, is) ↦ rw is (λ x same. first e is)
  ]

  pub and_then-IsFree :
      {X Y : Type 0} (generation : ℕ) (o : Outcome A X) (next : State A → X → Outcome A Y)
      → FailsFree generation o
      → ((t : State A) (v : X) → IsFree generation (next t v).state)
      → IsFree generation (and_then o next).state
  unfolding and_then FailsFree
  and_then-IsFree generation o next first later = elim (Result-cases o.result) [
    | inl (v, is) ↦ rw is (later o.state v)
    | inr (e, is) ↦ rw is (first e is)
  ]

  pub or_discard-FailsFree :
      {X : Type 0} (generation : ℕ) (o : Outcome A X)
      → FailsFree generation (or_discard generation o)
  unfolding or_discard FailsFree
  or_discard-FailsFree generation o = elim (Result-cases o.result) [
    | inl (v, is) ↦ rw is (λ e failed. absurd cc)
    | inr (x, is) ↦ rw is (λ e failed. discard-IsFree generation o.state)
  ]

  pub fail-FailsFree :
      (X : Type 0) (generation : ℕ) (message : Text) (s : State A)
      → FailsFree generation (fail_encrypted_comment_lookup {X = X} generation message s)
  unfolding fail_encrypted_comment_lookup FailsFree
  fail-FailsFree X generation message s e failed = discard-IsFree generation s

  pub finish_key_changes-FailsFree :
      (generation : ℕ) (changes : List KeyChange) (s : State A)
      → FailsFree generation (finish_key_changes generation changes s)
  unfolding finish_key_changes FailsFree
  finish_key_changes-FailsFree generation changes s =
      elim (Bool-cases (is_current s OperationFamily.resolution generation)) [
        | inl holds ↦ rw holds (λ e failed. absurd cc)
        | inr other ↦ rw other (λ e failed. other)
      ]

  pub page_answer-FailsFree :
      (generation : ℕ) (answer : Result Text KeyChangePage) (s : State A)
      → FailsFree generation (page_answer generation answer s)
  unfolding FailsFree page_answer
  page_answer-FailsFree generation (ok page) s = λ e failed. absurd cc
  page_answer-FailsFree generation (err message) s =
      fail-FailsFree KeyChangePage generation message s

  pub fail_lookup-IsFree :
      (X : Type 0) (generation : ℕ) (message : Text) (s : State A)
      → IsFree generation (fail_encrypted_comment_lookup {X = X} generation message s).state
  unfolding fail_encrypted_comment_lookup
  fail_lookup-IsFree X generation message s = discard-IsFree generation s

  pub fail-IsFree :
      (X : Type 0) (generation : ℕ) (message : Text) (s : State A)
      → IsFree generation (fail_encrypted_comment {X = X} generation message s).state
  unfolding fail_encrypted_comment
  fail-IsFree X generation message s = discard-IsFree generation s

  module _ (big : BigUintText) (host : CommentHost A) (world : World A) where
    execute_page-FailsFree :
        (generation n : ℕ) (request : HttpRequest) (s : State A)
        → FailsFree generation (execute_page big host world generation n request s)
    unfolding execute_page
    execute_page-FailsFree generation n request s =
        and_then-FailsFree generation _ _
          (or_discard-FailsFree generation
            (start_resolution_request generation request.id (world.others (page_requested n) s)))
          λ t _.
            and_then-FailsFree generation _ _
              (or_discard-FailsFree generation (
                finish_resolution_request generation request.id (world.others (page_answered n) t)))
              λ u _. page_answer-FailsFree generation (world.page n) u

    read_pages-FailsFree :
        (room generation n offset : ℕ) (changes : List KeyChange) (s : State A)
        → FailsFree generation (read_pages big host world room generation n offset changes s)
    unfolding read_pages
    read_pages-FailsFree zero generation n offset changes s =
        finish_key_changes-FailsFree generation changes (world.others (page_read n) s)
    read_pages-FailsFree (suc room) generation n offset changes s =
        and_then-FailsFree generation _ _
          (or_discard-FailsFree generation
            (request_page big generation offset (world.others (page_read n) s)))
          λ t request.
            and_then-FailsFree generation _ _ (execute_page-FailsFree generation n request t)
              λ u page.
                let read = changes ++ page.changes in
                if-cases (FailsFree generation) (has_more page) _ _
                  (λ more.
                    read_pages-FailsFree room generation (suc n)
                      (saturating_add offset page.raw_count) read u)
                  (λ last.
                    finish_key_changes-FailsFree generation read
                      (world.others (page_read (suc n)) u))

    pub cached_or_read-FailsFree :
        (generation : ℕ) (public_key : Bytes) (cached : Option (List KeyChange)) (s : State A)
        → FailsFree generation (cached_or_read big host world generation public_key cached s)
    unfolding cached_or_read FailsFree
    cached_or_read-FailsFree generation public_key none s =
        read_pages-FailsFree max_key_change_pages generation 0 0 [] s
    cached_or_read-FailsFree generation public_key (some changes) s =
        if-cases (FailsFree generation) (history_reaches changes public_key) _ _
          (λ reached e failed. absurd cc)
          (λ unreached. read_pages-FailsFree max_key_change_pages generation 0 0 [] s)
