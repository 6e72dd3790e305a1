-- ===== src/Base/Words.antt =====
-- Unsigned machine words: a value is a native number, and its range is written out.
use Prim.Native.Nat.{ℕ, ◌+◌, ◌-◌, ◌^◌, ◌<◌}
use mathlib.Core.Option.{Option, none, some}
use wallet_engine.Base.Tests.{leb, if◌then◌else◌}

abbrev pub IsU64 : ℕ → Type 0
IsU64 n = n < 2 ^ 64

abbrev pub u64_max : ℕ
u64_max = 2 ^ 64 - 1

-- `u64::checked_add`
abbrev pub checked_add : ℕ → ℕ → Option ℕ
checked_add a b = if leb (a + b) u64_max then some (a + b) else none

-- A result that a word of the largest value `bound` holds, as `checked_add` and `checked_mul` return.
abbrev pub within : ℕ → ℕ → Option ℕ
within bound n = if leb n bound then some n else none
