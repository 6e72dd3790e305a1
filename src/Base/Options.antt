-- ===== src/Base/Options.antt =====
-- Rust's `?` on an `Option`.
use mathlib.Core.Path.{◌≡◌, refl}
use mathlib.Core.Bool.{Bool, true, false}
use mathlib.Core.Option.{Option, none, some}

infixl 5 ◌>>=◌ ◌>>◌
abbrev pub ◌>>=◌ {κ μ} : {X : Type κ} {Y : Type μ} → Option X → (X → Option Y) → Option Y
none >>= next = none
some v >>= next = next v

abbrev pub ◌>>◌ {μ} : {Y : Type μ} → Option (Unit {0}) → Option Y → Option Y
none >> rest = none
some u >> rest = rest

-- `if bad { return None; }`, with the test that must hold.
abbrev pub require : Bool → Option (Unit {0})
require true = some tt
require false = none

-- A chain that succeeds has a first step that succeeds.
pub some->>= {κ μ} :
    {X : Type κ} {Y : Type μ} {y : Y} (step : Option X) (next : X → Option Y)
    → (step >>= next) ≡ some y
    → (v : X) × (step ≡ some v) × (next v ≡ some y)
some->>= none next p = absurd cc
some->>= (some v) next p = (v, refl, p)
