-- ===== src/Tests/Engine/Loading.antt =====
-- Runs of the loading sections, and their theorems at one state (src/engine/activity.rs,
-- src/engine/refresh.rs, src/engine/nft.rs).

use wallet_engine.Base.{
  ℕ, ◌+◌, ◌≤◌, true, false, ◌≡◌, refl, arith, Option, none, some, List, [], ◌∷◌, length,
}
use wallet_engine.Base.Results.{ok}
use wallet_engine.Base.Shuffle.{Shuffle, Shuffle-same}
use wallet_engine.Types.Texts.{Text, codes}
use wallet_engine.Types.Digits.{lex_cmp}
use wallet_engine.Types.Decimal.{BigUintText}
use wallet_engine.Tests.Engine.{config}
use wallet_engine.Engine.Snapshot.{ActivityDirection, ActivityStatus, empty_snapshot}
use wallet_engine.Engine.State.{
  State, ActivityRecord, ActivityPageCursor, is_current, is_generation, OperationFamily,
}
use wallet_engine.Engine.Client.{new_state}
use wallet_engine.Engine.Activity.{
  ActivityHost, ActivityPage, advances, merged, sort_rows, place, insert_rows, insert_row,
  activity_record_order, apply_activity_page,
}
use wallet_engine.Engine.Activity.Merge.{find, newest}
use wallet_engine.Engine.Activity.Pages.{IsShown, IsListed, apply_activity_page_merges}
use wallet_engine.Engine.Activity.Ends.{pages_applied, page_bound, pages_applied-bounded}
use wallet_engine.Engine.Loading.{activity}
use wallet_engine.Engine.Loading.Sections.{
  page, component, answers, run_answer, run_load, late_answer,
}
use wallet_engine.Engine.Loading.Kept.{IsLoaded}
use wallet_engine.Engine.Loading.Invariant.{load_section-IsLoaded}

abbrev in_order : ActivityHost ℕ
in_order = record { to_base64 = λ _ _ _ _. "EQ"; into_values = λ rows. rows }

in_order-Shuffle : (rows : List (ActivityRecord ℕ)) → Shuffle (in_order.into_values rows) rows
in_order-Shuffle rows = Shuffle-same rows

-- Texts of one digit are enough here.
abbrev one_digit : BigUintText
one_digit = record { from_str = λ s. none; to_str_radix = λ n. (48 + n) ∷ [] }

abbrev row : Text → ℕ → ActivityRecord ℕ
row id logical_time = record {
  id = id;
  transaction_hash = record { text = "hash" };
  logical_time = logical_time;
  timestamp = 0;
  direction = ActivityDirection.received;
  amount_nanograms = 1;
  transaction_fee_nanograms = 0;
  status = ActivityStatus.success;
  comment = none;
  encrypted_comment = none;
  counterparty = some 5;
}

abbrev cursor : ℕ → Option ActivityPageCursor
cursor logical_time = some (record { logical_time = logical_time; hash = record { text = "hash" } })

-- Two rows are loaded, and an older page repeats one of them.
abbrev loaded : State ℕ
loaded = record (new_state config) {
  activity = row (codes "b") 20 ∷ row (codes "a") 10 ∷ [];
  activity_cursor = cursor 10;
  activity_has_more = true;
  active_pagination = some (1, record { value = 3 });
}

abbrev older : ActivityPage ℕ
older = record {
  items = row (codes "a") 9 ∷ row (codes "c") 8 ∷ [];
  cursor = cursor 8;
  has_more = true;
}

merged_rows :
    merged in_order loaded.activity older.items
    ≡ row (codes "b") 20 ∷ row (codes "a") 9 ∷ row (codes "c") 8 ∷ []
unfolding merged sort_rows place insert_rows insert_row activity_record_order lex_cmp
merged_rows = refl

apply_activity_page_merges_example :
    let (t, added) = apply_activity_page in_order older loaded in
    IsShown in_order t
    × (true ≡ true
        → IsListed t.activity
          × ((i : Text) → find i t.activity ≡ newest i older.items (find i loaded.activity))
          × (added + 2 ≡ length t.activity)
          × (t.activity_cursor ≡ cursor 8)
          × (t.activity_has_more ≡ true))
    × (true ≡ false
        → (t.activity ≡ loaded.activity)
          × (added ≡ 0)
          × (t.activity_cursor ≡ cursor 10)
          × (t.activity_has_more ≡ false))
unfolding advances
apply_activity_page_merges_example =
    apply_activity_page_merges in_order in_order-Shuffle older loaded (refl, (refl, tt))
      (rw merged_rows (omega arith))

pages_applied-bounded_example :
    pages_applied in_order (older ∷ older ∷ []) loaded ≤ page_bound loaded
pages_applied-bounded_example = pages_applied-bounded in_order (older ∷ older ∷ []) loaded

superseded : is_current loaded OperationFamily.pagination 2 ≡ false
unfolding is_current is_generation
superseded = refl

late_answer_example : run_answer in_order 2 (page (ok older)) loaded ≡ (loaded, [])
late_answer_example = late_answer in_order 2 (page (ok older)) loaded superseded

new_state-IsLoaded : IsLoaded in_order (new_state config)
unfolding new_state empty_snapshot
new_state-IsLoaded = record {
  items_shown = refl;
  more_shown = refl;
  cursor_shown = refl;
  unique = tt;
  alone = λ h. absurd cc;
  nfts_alone = λ h. absurd cc;
  nfts_unique = tt;
  nfts_shown = refl;
}

load_section-IsLoaded_example :
    IsLoaded in_order
      (run_load in_order one_digit
        (answers 1 (component (activity (ok older))))
        (new_state config)).0
load_section-IsLoaded_example =
    load_section-IsLoaded in_order in_order-Shuffle one_digit
      (answers 1 (component (activity (ok older)))) (new_state config) (refl, (refl, tt))
      new_state-IsLoaded
