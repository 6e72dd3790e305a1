-- ===== src/Engine/Activity/Merge.antt =====
-- What a merge keeps and adds (src/engine/activity.rs).
use Prim.Native.Nat.{Ordering}
use wallet_engine.Base.{
  ◌≡◌, refl, ap, ◌∙◌, arith, Option, none, some, List, [], ◌∷◌, if◌then◌else◌, Bool-cases, inl, inr,
}
use wallet_engine.Base.Bytes.{same_bytes, same_bytes_refl, same_bytes-eq}
use wallet_engine.Base.Shuffle.{Shuffle, done, keep, swap, after, Shuffle-same}
use wallet_engine.Types.Texts.{Text}
use wallet_engine.Engine.State.{ActivityRecord}
use wallet_engine.Engine.Activity.{activity_record_order, place, sort_rows, insert_row, insert_rows}

module _ {A : Type 0} where
  -- The row of an identifier.
  abbrev pub find : Text → List (ActivityRecord A) → Option (ActivityRecord A)
  find i [] = none
  find i (x ∷ xs) = if same_bytes x.id i then some x else find i xs

  -- The last row of an identifier, or what there was.
  abbrev pub newest :
      Text → List (ActivityRecord A) → Option (ActivityRecord A) → Option (ActivityRecord A)
  newest i [] old = old
  newest i (x ∷ xs) old = newest i xs (if same_bytes x.id i then some x else old)

  abbrev pub Unique : List (ActivityRecord A) → Type 0
  Unique [] = Unit {0}
  Unique (x ∷ xs) = (find x.id xs ≡ none) × Unique xs

  -- Each row strictly before the next one.
  abbrev pub Ordered : List (ActivityRecord A) → Type 0
  Ordered [] = Unit {0}
  Ordered (x ∷ []) = Unit {0}
  Ordered (x ∷ y ∷ ys) = (activity_record_order x y ≡ Ordering.lt) × Ordered (y ∷ ys)

  pub find-insert_row :
      (i : Text) (x : ActivityRecord A) (rows : List (ActivityRecord A))
      → find i (insert_row x rows) ≡ (if same_bytes x.id i then some x else find i rows)
  unfolding insert_row
  find-insert_row i x [] = refl
  find-insert_row i x (y ∷ ys) = ground (
    arith,
    find-insert_row i x ys,
    same_bytes-eq y.id x.id,
    same_bytes-eq y.id i,
    same_bytes-eq x.id i,
    same_bytes_refl y.id,
    same_bytes_refl x.id,
  )

  pub find-insert_rows :
      (i : Text) (xs rows : List (ActivityRecord A))
      → find i (insert_rows xs rows) ≡ newest i xs (find i rows)
  unfolding insert_rows
  find-insert_rows i [] rows = refl
  find-insert_rows i (x ∷ xs) rows =
      find-insert_rows i xs (insert_row x rows) ∙ ap (newest i xs) (find-insert_row i x rows)

  insert_row-Unique :
      (x : ActivityRecord A) (rows : List (ActivityRecord A))
      → Unique rows
      → Unique (insert_row x rows)
  unfolding insert_row
  insert_row-Unique x [] u = (refl, tt)
  insert_row-Unique x (y ∷ ys) (first, rest) = elim (Bool-cases (same_bytes y.id x.id)) [
    | inl same ↦
        let e : y.id ≡ x.id = same_bytes-eq y.id x.id same in rw same (rw (← e) first, rest)
    | inr other ↦ rw other (
      ground (
        arith,
        find-insert_row y.id x ys,
        same_bytes-eq x.id y.id,
        same_bytes_refl y.id,
        same_bytes_refl x.id,
      ),
      insert_row-Unique x ys rest,
    )
  ]

  pub insert_rows-Unique :
      (xs rows : List (ActivityRecord A)) → Unique rows → Unique (insert_rows xs rows)
  unfolding insert_rows
  insert_rows-Unique [] rows u = u
  insert_rows-Unique (x ∷ xs) rows u =
      insert_rows-Unique xs (insert_row x rows) (insert_row-Unique x rows u)

  -- A list in another order has the same rows.
  pub find-Shuffle :
      {ys xs : List (ActivityRecord A)}
      → Shuffle ys xs
      → Unique xs
      → Unique ys × ((i : Text) → find i ys ≡ find i xs)
  find-Shuffle done u = (tt, λ i. refl)
  find-Shuffle (keep x s) (first, rest) =
      let (u, found) = find-Shuffle s rest in ((found x.id ∙ first, u), λ i. rw (found i) refl)
  find-Shuffle (swap x y zs) (first, (second, rest)) = (
    (ground (arith, same_bytes-eq y.id x.id, same_bytes_refl x.id), (ground arith, rest)),
    λ i. ground (arith, same_bytes-eq x.id i, same_bytes-eq y.id i, same_bytes_refl i),
  )
  find-Shuffle (after s t) u =
      let (v, found) = find-Shuffle t u in
      let (w, found') = find-Shuffle s v in (w, λ i. found' i ∙ found i)

  pub place-Shuffle :
      (x : ActivityRecord A) (ys : List (ActivityRecord A)) → Shuffle (place x ys) (x ∷ ys)
  unfolding place
  place-Shuffle x [] = keep x done
  place-Shuffle x (y ∷ ys) =
      elim (activity_record_order x y)
        as (λ o. Shuffle (elim o [ Ordering.gt ↦ y ∷ place x ys | _ ↦ x ∷ y ∷ ys ]) (x ∷ y ∷ ys)) [
          | Ordering.gt ↦ after (keep y (place-Shuffle x ys)) (swap y x ys)
          | Ordering.eq ↦ Shuffle-same (x ∷ y ∷ ys)
          | Ordering.lt ↦ Shuffle-same (x ∷ y ∷ ys)
        ]

  pub sort_rows-Shuffle : (xs : List (ActivityRecord A)) → Shuffle (sort_rows xs) xs
  unfolding sort_rows
  sort_rows-Shuffle [] = done
  sort_rows-Shuffle (x ∷ xs) =
      after (place-Shuffle x (sort_rows xs)) (keep x (sort_rows-Shuffle xs))
