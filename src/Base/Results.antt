-- ===== src/Base/Results.antt =====
-- Rust's `Result`, with `do` for chains of `?`.

use mathlib.Core.Path.{◌≡◌, refl}
use mathlib.Core.Logic.{◌⊎◌, inl, inr}
use mathlib.Core.Bool.{Bool, true, false}
use mathlib.Core.Option.{Option, none, some}

pub data Result {ℓ κ} (E : Type ℓ) (A : Type κ) : Type (ℓ ⊔ κ) where
  ok : A → Result E A
  err : E → Result E A

-- `?` on a result.
infixl 5 ◌>>=◌ ◌>>◌
abbrev pub ◌>>=◌ {κ μ ℓ} :
    {X : Type κ} {Y : Type μ} {Err : Type ℓ} → Result Err X → (X → Result Err Y) → Result Err Y
err x >>= next = err x
ok v >>= next = next v

abbrev pub ◌>>◌ {μ ℓ} :
    {Y : Type μ} {Err : Type ℓ} → Result Err (Unit {0}) → Result Err Y → Result Err Y
err x >> rest = err x
ok u >> rest = rest

-- `if bad { return Err(e); }`, with the test that must hold.
abbrev pub guard {ℓ} : {E : Type ℓ} → Bool → E → Result E (Unit {0})
guard true e = ok tt
guard false e = err e

-- `ok_or(e)?`
abbrev pub ok_or {ℓ κ} : {E : Type ℓ} {A : Type κ} → Option A → E → Result E A
ok_or (some a) e = ok a
ok_or none e = err e

-- `map_err(f)`
abbrev pub map_err {ℓ κ μ} :
    {E : Type ℓ} {F : Type κ} {A : Type μ} → (E → F) → Result E A → Result F A
map_err f (ok a) = ok a
map_err f (err e) = err (f e)

abbrev pub is_ok {ℓ κ} : {E : Type ℓ} {A : Type κ} → Result E A → Bool
is_ok (ok a) = true
is_ok (err e) = false

-- A chain that succeeds has a first step that succeeds.
pub >>=-eq-ok {κ μ ℓ} :
    {X : Type κ} {Y : Type μ} {Err : Type ℓ} {y : Y} (step : Result Err X) (next : X → Result Err Y)
    → (step >>= next) ≡ ok y
    → (v : X) × (step ≡ ok v) × (next v ≡ ok y)
>>=-eq-ok (err x) next p = cc
>>=-eq-ok (ok v) next p = (v, refl, p)

pub Result-cases {ℓ κ} :
    {E : Type ℓ} {A : Type κ} (r : Result E A) → ((a : A) × (r ≡ ok a)) ⊎ ((e : E) × (r ≡ err e))
Result-cases (ok a) = inl (a, refl)
Result-cases (err e) = inr (e, refl)

-- The same for a first step that reads an option, and for one that tests.
pub ok_or->>= {κ μ ℓ} :
    {X : Type κ} {Y : Type μ} {Err : Type ℓ} {y : Y} (o : Option X) (x : Err)
    (next : X → Result Err Y)
    → (ok_or o x >>= next) ≡ ok y
    → (v : X) × (o ≡ some v) × (next v ≡ ok y)
ok_or->>= none x next p = absurd cc
ok_or->>= (some v) x next p = (v, refl, p)

pub guard->> {μ ℓ} :
    {Y : Type μ} {Err : Type ℓ} {y : Y} (test : Bool) (x : Err) (rest : Result Err Y)
    → (guard test x >> rest) ≡ ok y
    → (test ≡ true) × (rest ≡ ok y)
guard->> true x rest p = (refl, p)
guard->> false x rest p = absurd cc

-- A chain whose last step only tests its result.
pub checked_last {μ ℓ} :
    {Y : Type μ} {Err : Type ℓ} {y : Y} (step : Result Err Y) (test : Y → Bool) (x : Err)
    → (step >>= λ v. guard (test v) x >> ok v) ≡ ok y
    → step ≡ ok y
checked_last (err e) test x p = absurd cc
checked_last (ok v) test x p = (guard->> (test v) x (ok v) p).1

pub >>-eq-ok {μ ℓ} :
    {Y : Type μ} {Err : Type ℓ} {y : Y} (step : Result Err (Unit {0})) (rest : Result Err Y)
    → (step >> rest) ≡ ok y
    → (step ≡ ok tt) × (rest ≡ ok y)
>>-eq-ok (err x) rest p = absurd cc
>>-eq-ok (ok u) rest p = (refl, p)

pub map_err-eq-ok {ℓ κ μ} :
    {E : Type ℓ} {F : Type κ} {A : Type μ} {a : A} (f : E → F) (r : Result E A)
    → map_err f r ≡ ok a
    → r ≡ ok a
map_err-eq-ok f (ok b) p = cc
map_err-eq-ok f (err e) p = absurd cc
