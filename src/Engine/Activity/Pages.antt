-- ===== src/Engine/Activity/Pages.antt =====
-- What a provider page makes of the state (src/engine/activity.rs, `apply_activity_page`).

use wallet_engine.Base.{
  suc, ◌+◌, ◌≤◌, ◌≡◌, refl, ap, ◌∙◌, arith, true, false, Option, none, some, List, [], ◌∷◌, map,
  length, Bool-cases, inl, inr, ◌⊎◌,
}
use wallet_engine.Base.Bytes.{same_bytes, same_bytes_refl, same_bytes-eq}
use wallet_engine.Base.Words.{u64_max}
use wallet_engine.Base.Shuffle.{Shuffle, Shuffle-length}
use wallet_engine.Types.Texts.{Text}
use wallet_engine.Engine.State.{State, ActivityRecord}
use wallet_engine.Engine.Activity.{
  ActivityHost, ActivityPage, insert_row, insert_rows, merged, advances, cursor_snapshot,
  record_snapshot, sync_activity_snapshot, apply_activity_page,
}
use wallet_engine.Engine.Activity.Merge.{
  find, newest, Unique, Ordered, find-insert_row, find-insert_rows, insert_rows-Unique,
  find-Shuffle, sort_rows-Shuffle,
}
use wallet_engine.Engine.Activity.Order.{sort_rows-Ordered}

abbrev or_else : {X : Type 0} → Option X → Option X → Option X
or_else none b = b
or_else (some a) b = some a

or_else-none : {X : Type 0} (o : Option X) → or_else o none ≡ o
or_else-none none = refl
or_else-none (some x) = refl

module _ {A : Type 0} where
  -- Rows newest first, of which no two have one identifier.
  pub record IsListed (rows : List (ActivityRecord A)) : Type 0 where
    pub ordered : Ordered rows
    pub unique : Unique rows

  newest-Unique :
      (i : Text) (xs : List (ActivityRecord A)) (o : Option (ActivityRecord A))
      → Unique xs
      → newest i xs o ≡ or_else (find i xs) o
  newest-Unique i [] o u = refl
  newest-Unique i (x ∷ xs) o (first, rest) = elim (Bool-cases (same_bytes x.id i)) [
    | inl same ↦
        let e : x.id ≡ i = same_bytes-eq x.id i same in
        rw same (newest-Unique i xs (some x) rest ∙ rw (← e, first) refl)
    | inr other ↦ rw other (newest-Unique i xs o rest)
  ]

  length-insert_row :
      (x : ActivityRecord A) (rows : List (ActivityRecord A))
      → (find x.id rows ≡ none → length (insert_row x rows) ≡ suc (length rows))
        × (length rows ≤ length (insert_row x rows))
  unfolding insert_row
  length-insert_row x [] = (λ h. omega arith, omega arith)
  length-insert_row x (y ∷ ys) =
      let (fresh, more) = length-insert_row x ys in
      elim (Bool-cases (same_bytes y.id x.id)) [
        | inl same ↦ rw same ((λ h. absurd cc), omega arith)
        | inr other ↦ rw other ((λ h. omega (arith, fresh h)), omega arith)
      ]

  length-insert_rows :
      (xs rows : List (ActivityRecord A)) → length rows ≤ length (insert_rows xs rows)
  unfolding insert_rows
  length-insert_rows [] rows = omega arith
  length-insert_rows (x ∷ xs) rows =
      omega (arith, (length-insert_row x rows).1, length-insert_rows xs (insert_row x rows))

  -- No identifier has a row in both.
  abbrev Disjoint : List (ActivityRecord A) → List (ActivityRecord A) → Type 0
  Disjoint xs rows = (i : Text) → (find i xs ≡ none) ⊎ (find i rows ≡ none)

  Disjoint-insert_row :
      (x : ActivityRecord A) (xs rows : List (ActivityRecord A))
      → find x.id xs ≡ none
      → Disjoint (x ∷ xs) rows
      → Disjoint xs (insert_row x rows)
  Disjoint-insert_row x xs rows first apart i = elim (Bool-cases (same_bytes x.id i)) [
    | inl same ↦ inl (rw (← same_bytes-eq x.id i same) first)
    | inr other ↦ elim (apart i) [
      | inl absent ↦ inl (ground arith)
      | inr absent ↦ inr (rw (find-insert_row i x rows, other) absent)
    ]
  ]

  length-insert_fresh :
      (xs rows : List (ActivityRecord A))
      → Unique xs
      → Disjoint xs rows
      → length (insert_rows xs rows) ≡ length xs + length rows
  unfolding insert_rows
  length-insert_fresh [] rows u apart = omega arith
  length-insert_fresh (x ∷ xs) rows (first, rest) apart =
      let absent : find x.id rows ≡ none = elim (apart x.id) [
        | inl nothing ↦ absurd (ground (arith, same_bytes_refl x.id))
        | inr nothing ↦ nothing
      ] in
      omega (
        arith,
        length-insert_fresh xs (insert_row x rows) rest (Disjoint-insert_row x xs rows first apart),
        (length-insert_row x rows).0 absent,
      )

module _ {A : Type 0} (host : ActivityHost A) where
  -- The published list is the list of the state.
  pub record IsShown (s : State A) : Type 0 where
    pub items_shown :
        s.snapshot.activity.items ≡ map (record_snapshot host s.config.network) s.activity
    pub more_shown : s.snapshot.activity.has_more ≡ s.activity_has_more
    pub cursor_shown :
        s.snapshot.activity_cursor
        ≡ elim s.activity_cursor [ none ↦ none | some c ↦ some (cursor_snapshot c) ]

  pub sync-IsShown : (s : State A) → IsShown (sync_activity_snapshot host s)
  unfolding sync_activity_snapshot
  sync-IsShown s = record { items_shown = refl; more_shown = refl; cursor_shown = refl }

module _ {A : Type 0} (host : ActivityHost A)
    (shuffles : (rows : List (ActivityRecord A)) → Shuffle (host.into_values rows) rows) where
  pub merged_lem :
      (activity items : List (ActivityRecord A))
      → Unique activity
      → IsListed (merged host activity items)
        × ((i : Text) → find i (merged host activity items) ≡ newest i items (find i activity))
        × (length activity ≤ length (merged host activity items))
  unfolding merged
  merged_lem activity items u =
      let rows = insert_rows items (insert_rows activity []) in
      let unique : Unique rows =
        insert_rows-Unique items (insert_rows activity []) (insert_rows-Unique activity [] tt) in
      let (taken, found) = find-Shuffle (shuffles rows) unique in
      let (sorted, found') = find-Shuffle (sort_rows-Shuffle (host.into_values rows)) taken in
      (
        record { ordered = sort_rows-Ordered (host.into_values rows) taken; unique = sorted },
        λ i.
            found' i
            ∙ (found i
                ∙ (find-insert_rows i items (insert_rows activity [])
                    ∙ ap (newest i items) (
                        find-insert_rows i activity []
                        ∙ (newest-Unique i activity none u ∙ or_else-none (find i activity))))),
        omega (
          arith,
          Shuffle-length (sort_rows-Shuffle (host.into_values rows)),
          Shuffle-length (shuffles rows),
          length-insert_rows items (insert_rows activity []),
          length-insert_fresh activity [] u (λ i. inr refl),
        ),
      )

  -- A page that moves to an older time gives a list that is ordered and unique, in which each identifier
  -- has the page's last row of it, or else the row that it had; the count that is returned is the number
  -- of rows that were added, and the page's cursor is taken over. Any other page ends the pagination and
  -- keeps the rows and the cursor. What is published is the list in both cases. The loaded list is
  -- unique, a merged list is no longer than a u64, and a hash map gives its values in some order.
  pub apply_activity_page_merges :
      (page : ActivityPage A) (s : State A)
      → Unique s.activity
      → length (merged host s.activity page.items) ≤ u64_max
      → let (t, added) = apply_activity_page host page s in
        IsShown host t
        × (advances s.activity_cursor page.cursor ≡ true
            → IsListed t.activity
              × ((i : Text) → find i t.activity ≡ newest i page.items (find i s.activity))
              × (added + length s.activity ≡ length t.activity)
              × (t.activity_cursor ≡ page.cursor)
              × (t.activity_has_more ≡ page.has_more))
        × (advances s.activity_cursor page.cursor ≡ false
            → (t.activity ≡ s.activity)
              × (added ≡ 0)
              × (t.activity_cursor ≡ s.activity_cursor)
              × (t.activity_has_more ≡ false))
  unfolding apply_activity_page sync_activity_snapshot
  apply_activity_page_merges page s u small =
      let (listed, found, longer) = merged_lem s.activity page.items u in
      elim (Bool-cases (advances s.activity_cursor page.cursor)) [
        | inl older ↦ rw older (
          record { items_shown = refl; more_shown = refl; cursor_shown = refl },
          λ _. (listed, found, omega arith, refl, refl),
          λ h. absurd cc,
        )
        | inr not_older ↦ rw not_older (
          record { items_shown = refl; more_shown = refl; cursor_shown = refl },
          λ h. absurd cc,
          λ _. (refl, refl, refl, refl),
        )
      ]
