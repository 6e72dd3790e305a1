-- ===== src/Base/Shuffle.antt =====
-- A list in another order, as a derivation that proofs take apart.
use wallet_engine.Base.{suc, ◌≡◌, refl, ap, ◌∙◌, List, [], ◌∷◌, length}

pub data Shuffle {ℓ} {A : Type ℓ} : List A → List A → Type ℓ where
  done : Shuffle [] []
  keep : (x : A) {xs ys : List A} → Shuffle xs ys → Shuffle (x ∷ xs) (x ∷ ys)
  swap : (x y : A) (zs : List A) → Shuffle (x ∷ y ∷ zs) (y ∷ x ∷ zs)
  after : {xs ys zs : List A} → Shuffle xs ys → Shuffle ys zs → Shuffle xs zs

module _ {ℓ} {A : Type ℓ} where
  pub Shuffle-same : (xs : List A) → Shuffle xs xs
  Shuffle-same [] = done
  Shuffle-same (x ∷ xs) = keep x (Shuffle-same xs)

  pub Shuffle-length : {xs ys : List A} → Shuffle xs ys → length xs ≡ length ys
  Shuffle-length done = refl
  Shuffle-length (keep x s) = ap suc (Shuffle-length s)
  Shuffle-length (swap x y zs) = refl
  Shuffle-length (after s t) = Shuffle-length s ∙ Shuffle-length t
