-- ===== src/Base/Holds.antt =====
-- What holds of a result if it succeeds, proved step by step along a chain.
use mathlib.Core.Path.{◌≡◌, refl, subst}
use mathlib.Core.Bool.{Bool, true, false}
use mathlib.Core.Option.{Option, none, some}
use wallet_engine.Base.Results.{Result, ok, err, ok_or, guard, ◌>>=◌, ◌>>◌}

pub data Holds {ℓ κ μ} {Err : Type ℓ} {Y : Type κ} (P : Y → Type μ)
    : Result Err Y → Type (ℓ ⊔ κ ⊔ μ) where
  holds : {v : Y} → P v → Holds P (ok v)
  fails : {x : Err} → Holds P (err x)

module _ {ℓ κ μ} {Err : Type ℓ} {Y : Type κ} where
  pub Holds-of-ok :
      (P : Y → Type μ) (step : Result Err Y) (v : Y) → Holds P step → step ≡ ok v → P v
  Holds-of-ok P step v (holds {v = u} p) is = let same : u ≡ v = cc in subst P same p
  Holds-of-ok P step v fails is = absurd cc

  pub Holds->>= {ν} :
      {X : Type ν} (P : Y → Type μ) (step : Result Err X) (next : X → Result Err Y)
      → ((v : X) → step ≡ ok v → Holds P (next v))
      → Holds P (step >>= next)
  Holds->>= P (ok v) next h = h v refl
  Holds->>= P (err x) next h = fails

  pub Holds-ok_or {ν} :
      {X : Type ν} (P : Y → Type μ) (o : Option X) (x : Err) (next : X → Result Err Y)
      → ((v : X) → o ≡ some v → Holds P (next v))
      → Holds P (ok_or o x >>= next)
  Holds-ok_or P (some v) x next h = h v refl
  Holds-ok_or P none x next h = fails

  pub Holds-guard :
      (P : Y → Type μ) (test : Bool) (x : Err) (rest : Result Err Y)
      → (test ≡ true → Holds P rest)
      → Holds P (guard test x >> rest)
  Holds-guard P true x rest h = h refl
  Holds-guard P false x rest h = fails

  pub Holds->> :
      (P : Y → Type μ) (step : Result Err (Unit {0})) (rest : Result Err Y)
      → (step ≡ ok tt → Holds P rest)
      → Holds P (step >> rest)
  Holds->> P (ok u) rest h = h refl
  Holds->> P (err x) rest h = fails
