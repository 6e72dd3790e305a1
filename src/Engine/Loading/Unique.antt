-- ===== src/Engine/Loading/Unique.antt =====
-- No NFT is listed twice (src/engine/nft.rs, `deduplicate_nfts` and `apply_nft_page`).
use Prim.Native.String.{String}
use text.Mathlib.TextEquality.{eq_iff}
use text.Mathlib.TextPositions.{eq_refl}
use wallet_engine.Base.{
  false, ◌≡◌, refl, arith, List, [], ◌∷◌, ◌++◌, map, All, Bool-cases, inl, inr,
}
use wallet_engine.Engine.Snapshot.{NftItem}
use wallet_engine.Engine.Loading.Nfts.{is_seen, unseen, deduplicate_nfts}

module _ {A : Type 0} where
  abbrev pub addresses : List (NftItem A) → List String
  addresses = map (λ x. x.address.value)

  -- The addresses of the rows differ from one another.
  abbrev pub NftsUnique : List (NftItem A) → Type 0
  NftsUnique [] = Unit {0}
  NftsUnique (x ∷ xs) = (is_seen x.address.value (addresses xs) ≡ false) × NftsUnique xs

  abbrev Apart : List String → List (NftItem A) → Type 0
  Apart seen = All (λ x. is_seen x.address.value seen ≡ false)

  Apart-tail :
      (a : String) (seen : List String) (xs : List (NftItem A))
      → Apart (a ∷ seen) xs
      → Apart seen xs
  unfolding is_seen
  Apart-tail a seen [] h = tt
  Apart-tail a seen (x ∷ xs) (h, hs) = (ground arith, Apart-tail a seen xs hs)

  Apart-head :
      (a : String) (seen : List String) (xs : List (NftItem A))
      → Apart (a ∷ seen) xs
      → is_seen a (addresses xs) ≡ false
  unfolding is_seen
  Apart-head a seen [] h = refl
  Apart-head a seen (x ∷ xs) (h, hs) = ground (
    arith,
    Apart-head a seen xs hs,
    eq_iff x.address.value a,
    eq_iff a x.address.value,
    eq_refl a,
  )

  pub unseen-Unique :
      (seen : List String) (xs : List (NftItem A))
      → NftsUnique (unseen seen xs) × Apart seen (unseen seen xs)
  unfolding unseen
  unseen-Unique seen [] = (tt, tt)
  unseen-Unique seen (x ∷ xs) = elim (Bool-cases (is_seen x.address.value seen)) [
    | inl old ↦ rw old (unseen-Unique seen xs)
    | inr new ↦
        let a = x.address.value in
        let (unique, apart) = unseen-Unique (a ∷ seen) xs in
        rw new (
          (Apart-head a seen (unseen (a ∷ seen) xs) apart, unique),
          (new, Apart-tail a seen (unseen (a ∷ seen) xs) apart),
        )
  ]

  pub deduplicate_nfts-Unique : (xs : List (NftItem A)) → NftsUnique (deduplicate_nfts xs)
  unfolding deduplicate_nfts
  deduplicate_nfts-Unique xs = (unseen-Unique [] xs).0

  is_seen-append :
      (a : String) (xs ys : List (NftItem A))
      → is_seen a (addresses xs) ≡ false
      → is_seen a (addresses ys) ≡ false
      → is_seen a (addresses (xs ++ ys)) ≡ false
  unfolding is_seen
  is_seen-append a [] ys h k = k
  is_seen-append a (x ∷ xs) ys h k = ground (arith, is_seen-append a xs ys)

  pub append-Unique :
      (xs ys : List (NftItem A))
      → NftsUnique xs
      → NftsUnique ys
      → Apart (addresses xs) ys
      → NftsUnique (xs ++ ys)
  append-Unique [] ys u v h = v
  append-Unique (x ∷ xs) ys (first, u) v h = (
    is_seen-append x.address.value xs ys first (Apart-head x.address.value (addresses xs) ys h),
    append-Unique xs ys u v (Apart-tail x.address.value (addresses xs) ys h),
  )
