-- ===== src/Engine/Activity.antt =====
-- The activity list and the merge of a provider page (src/engine/activity.rs, and the records of
-- src/engine/provider.rs).
pub mod Merge
pub mod Order
pub mod Pages
pub mod Ends
use Prim.Native.Nat.{compare, Ordering, min}
use Prim.Native.String.{String}
use wallet_engine.Base.{
  ℕ, ◌-◌, Bool, true, false, Option, none, some, List, [], ◌∷◌, map, ltb, length, if◌then◌else◌,
}
use wallet_engine.Base.Bytes.{same_bytes}
use wallet_engine.Base.Words.{u64_max}
use wallet_engine.Domain.Send.{TonAddressString}
use wallet_engine.Types.Digits.{then_with, lex_cmp}
use wallet_engine.Engine.Snapshot.{Network, ActivityItem, ActivityCursor}
use wallet_engine.Engine.State.{State, ActivityRecord, ActivityPageCursor}

pub record ActivityPage (A : Type 0) : Type 0 where
  pub items : List (ActivityRecord A)
  pub cursor : Option ActivityPageCursor
  pub has_more : Bool

-- What the code takes from elsewhere: `TonAddress::to_base64` of ton_core, and the order, which
-- Rust leaves open, in which a hash map gives its values.
pub record ActivityHost (A : Type 0) : Type 0 where
  pub to_base64 : A → Bool → Bool → Bool → String
  pub into_values : List (ActivityRecord A) → List (ActivityRecord A)

abbrev pub is_mainnet : Network → Bool
is_mainnet Network.mainnet = true
is_mainnet Network.testnet = false

-- Whether the page moves to an older logical time.
unfoldable pub advances : Option ActivityPageCursor → Option ActivityPageCursor → Bool
advances (some previous) (some next) = ltb next.logical_time previous.logical_time
advances none next = false
advances (some previous) none = false

-- `ActivityPageCursor::snapshot`
unfoldable pub cursor_snapshot : ActivityPageCursor → ActivityCursor
cursor_snapshot cursor = record { logical_time = cursor.logical_time; hash = cursor.hash }

module _ {A : Type 0} where
  unfoldable pub activity_record_order : ActivityRecord A → ActivityRecord A → Ordering
  activity_record_order left right =
      then_with (compare right.logical_time left.logical_time)
        (then_with (compare right.timestamp left.timestamp) (lex_cmp left.id right.id))

  -- A row before the rows that are sorted: `sort_by` is stable.
  unfoldable pub place : ActivityRecord A → List (ActivityRecord A) → List (ActivityRecord A)
  place x [] = x ∷ []
  place x (y ∷ ys) = elim (activity_record_order x y) [
    | Ordering.gt ↦ y ∷ place x ys
    | _ ↦ x ∷ y ∷ ys
  ]

  unfoldable pub sort_rows : List (ActivityRecord A) → List (ActivityRecord A)
  unfolding place
  sort_rows [] = []
  sort_rows (x ∷ xs) = place x (sort_rows xs)

  -- `by_id.insert(item.id.clone(), item)`; the map is the list of its values.
  unfoldable pub insert_row : ActivityRecord A → List (ActivityRecord A) → List (ActivityRecord A)
  insert_row x [] = x ∷ []
  insert_row x (y ∷ ys) = if same_bytes y.id x.id then x ∷ ys else y ∷ insert_row x ys

  -- The rows, each inserted into the map.
  unfoldable pub insert_rows :
      List (ActivityRecord A) → List (ActivityRecord A) → List (ActivityRecord A)
  unfolding insert_row
  insert_rows [] rows = rows
  insert_rows (x ∷ xs) rows = insert_rows xs (insert_row x rows)

module _ {A : Type 0} (host : ActivityHost A) where
  -- `TonAddressString::from_address`
  unfoldable pub from_address : A → Network → TonAddressString A
  from_address address network = record {
    value = host.to_base64 address (is_mainnet network) false true;
    address = address;
  }

  -- `ActivityRecord::snapshot`
  unfoldable pub record_snapshot : Network → ActivityRecord A → ActivityItem A
  unfolding from_address
  record_snapshot network r = record {
    id = r.id;
    transaction_hash = r.transaction_hash;
    logical_time = r.logical_time;
    timestamp = r.timestamp;
    direction = r.direction;
    amount_nanograms = r.amount_nanograms;
    transaction_fee_nanograms = r.transaction_fee_nanograms;
    status = r.status;
    comment = r.comment;
    encrypted_comment = r.encrypted_comment;
    counterparty = elim r.counterparty [ none ↦ none | some a ↦ some (from_address a network) ];
  }

  unfoldable pub sync_activity_snapshot : State A → State A
  unfolding record_snapshot cursor_snapshot
  sync_activity_snapshot s = record s {
    snapshot = record (s.snapshot) {
      activity = record (s.snapshot.activity) {
        items = map (record_snapshot s.config.network) s.activity;
        has_more = s.activity_has_more;
      };
      activity_cursor = elim s.activity_cursor [ none ↦ none | some c ↦ some (cursor_snapshot c) ];
    };
  }

  -- The rows of the map that both merges build, in the order of the list.
  unfoldable pub merged :
      List (ActivityRecord A) → List (ActivityRecord A) → List (ActivityRecord A)
  unfolding insert_rows sort_rows
  merged activity items = sort_rows (host.into_values (insert_rows items (insert_rows activity [])))

  unfoldable pub apply_activity_page : ActivityPage A → State A → State A × ℕ
  unfolding sync_activity_snapshot merged advances
  apply_activity_page page s =
      if advances s.activity_cursor page.cursor
      then (
        sync_activity_snapshot (record s {
          activity = merged s.activity page.items;
          activity_cursor = page.cursor;
          activity_has_more = page.has_more;
        }),
        min (length (merged s.activity page.items) - length s.activity) u64_max,
      )
      else (sync_activity_snapshot (record s { activity_has_more = false }), 0)

  -- A refreshed page, by the rows that are loaded.
  unfoldable pub refreshed_rows : ActivityPage A → List (ActivityRecord A) → State A → State A
  unfolding sync_activity_snapshot merged
  refreshed_rows page [] s = sync_activity_snapshot (record s {
    activity = page.items;
    activity_cursor = page.cursor;
    activity_has_more = page.has_more;
  })
  refreshed_rows page (x ∷ xs) s =
      sync_activity_snapshot (record s { activity = merged (x ∷ xs) page.items })

  unfoldable pub apply_refreshed_activity_page : ActivityPage A → State A → State A
  unfolding refreshed_rows
  apply_refreshed_activity_page page s = refreshed_rows page s.activity s
