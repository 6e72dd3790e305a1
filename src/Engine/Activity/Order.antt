-- ===== src/Engine/Activity/Order.antt =====
-- The order of the activity rows (src/engine/provider.rs, `activity_record_order`).
use Prim.Native.Nat.{Ordering}
use wallet_engine.Base.{◌≡◌, refl, ◌∙◌, arith, true, none, List, [], ◌∷◌, ◌⊎◌, inl, inr}
use wallet_engine.Base.Bytes.{same_bytes, same_bytes_refl, same_bytes-eq}
use wallet_engine.Types.Texts.{Text}
use wallet_engine.Types.Digits.{lex_cmp}
use wallet_engine.Engine.State.{ActivityRecord}
use wallet_engine.Engine.Activity.{activity_record_order, place, sort_rows}
use wallet_engine.Engine.Activity.Merge.{find, Unique, Ordered, find-Shuffle, sort_rows-Shuffle}

Ordering-cases : (o : Ordering) → (o ≡ Ordering.lt) ⊎ ((o ≡ Ordering.eq) ⊎ (o ≡ Ordering.gt))
Ordering-cases Ordering.lt = inl refl
Ordering-cases Ordering.eq = inr (inl refl)
Ordering-cases Ordering.gt = inr (inr refl)

lex_cmp-gt : (s t : Text) → lex_cmp s t ≡ Ordering.gt → lex_cmp t s ≡ Ordering.lt
unfolding lex_cmp
lex_cmp-gt [] [] h = cc
lex_cmp-gt [] (y ∷ ys) h = cc
lex_cmp-gt (x ∷ xs) [] h = refl
lex_cmp-gt (x ∷ xs) (y ∷ ys) h = ground (arith, lex_cmp-gt xs ys)

lex_cmp-eq : (s t : Text) → lex_cmp s t ≡ Ordering.eq → same_bytes s t ≡ true
unfolding lex_cmp
lex_cmp-eq [] [] h = refl
lex_cmp-eq [] (y ∷ ys) h = absurd cc
lex_cmp-eq (x ∷ xs) [] h = absurd cc
lex_cmp-eq (x ∷ xs) (y ∷ ys) h = ground (arith, lex_cmp-eq xs ys)

module _ {A : Type 0} where
  order-gt :
      (x y : ActivityRecord A)
      → activity_record_order x y ≡ Ordering.gt
      → activity_record_order y x ≡ Ordering.lt
  unfolding activity_record_order
  order-gt x y h = ground (arith, lex_cmp-gt x.id y.id)

  order-eq :
      (x y : ActivityRecord A)
      → activity_record_order x y ≡ Ordering.eq
      → same_bytes x.id y.id ≡ true
  unfolding activity_record_order
  order-eq x y h = ground (arith, lex_cmp-eq x.id y.id)

  order-ne-eq :
      (x y : ActivityRecord A) (ys : List (ActivityRecord A))
      → find x.id (y ∷ ys) ≡ none
      → activity_record_order x y ≡ Ordering.eq
      → ⊥
  order-ne-eq x y ys absent h =
      let same = order-eq x y h in
      let e : x.id ≡ y.id = same_bytes-eq x.id y.id same in ground (arith, same_bytes_refl x.id)

  -- A row that belongs after `y` is placed after it.
  place-after :
      (x y : ActivityRecord A) (ys : List (ActivityRecord A))
      → activity_record_order y x ≡ Ordering.lt
      → find x.id ys ≡ none
      → Ordered (y ∷ ys)
      → Ordered (y ∷ place x ys)
  unfolding place
  place-after x y [] yx absent o = (yx, tt)
  place-after x y (z ∷ zs) yx absent (yz, rest) =
      elim (Ordering-cases (activity_record_order x z)) [
        | inl lt ↦ rw (place, lt) (yx, (lt, rest))
        | inr (inl eq) ↦ absurd (order-ne-eq x z zs absent eq)
        | inr (inr gt) ↦
            rw (place, gt) (yz, place-after x z zs (order-gt x z gt) (ground arith) rest)
      ]

  place-Ordered :
      (x : ActivityRecord A) (ys : List (ActivityRecord A))
      → find x.id ys ≡ none
      → Ordered ys
      → Ordered (place x ys)
  unfolding place
  place-Ordered x [] absent o = tt
  place-Ordered x (y ∷ ys) absent o = elim (Ordering-cases (activity_record_order x y)) [
    | inl lt ↦ rw (place, lt) (lt, o)
    | inr (inl eq) ↦ absurd (order-ne-eq x y ys absent eq)
    | inr (inr gt) ↦ rw (place, gt) (place-after x y ys (order-gt x y gt) (ground arith) o)
  ]

  pub sort_rows-Ordered : (xs : List (ActivityRecord A)) → Unique xs → Ordered (sort_rows xs)
  unfolding sort_rows
  sort_rows-Ordered [] u = tt
  sort_rows-Ordered (x ∷ xs) (first, rest) =
      let (_, found) = find-Shuffle (sort_rows-Shuffle xs) rest in
      place-Ordered x (sort_rows xs) (found x.id ∙ first) (sort_rows-Ordered xs rest)
