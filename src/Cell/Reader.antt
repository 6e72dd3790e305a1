-- ===== src/Cell/Reader.antt =====
-- The cursor over untrusted bytes (crates/ton-connect-core/src/cell_boc.rs, `BocReader`). `usize_max`
-- is the largest value of the platform's `usize`.
use wallet_engine.Base.{
  ℕ, ◌+◌, ◌-◌, ◌*◌, Bool, ◌==◌, ◌&&◌, Option, none, some, List, [], ◌∷◌, leb, if◌then◌else◌, length,
  get_elem?, take, drop,
}
use wallet_engine.Base.Words.{within}
use wallet_engine.Base.Options.{◌>>=◌}

pub record BocReader : Type 0 where
  pub bytes : List ℕ
  pub position : ℕ

-- `slice.get(start..end)`
unfoldable pub get_range {ℓ} : {A : Type ℓ} → List A → ℕ → ℕ → Option (List A)
get_range xs start end =
    if leb start end && leb end (length xs) then some (take (end - start) (drop start xs)) else none

unfoldable pub reader : List ℕ → BocReader
reader bytes = record { bytes = bytes; position = 0 }

unfoldable pub is_empty : BocReader → Bool
is_empty r = r.position == length r.bytes

module _ (usize_max : ℕ) where
  unfoldable pub byte : BocReader → Option (ℕ × BocReader)
  byte r = do
    value ← get_elem? r.bytes r.position
    position ← within usize_max (r.position + 1)
    some (value, record r { position = position })

  -- `BocReader::take`
  unfoldable pub take_bytes : BocReader → ℕ → Option (List ℕ × BocReader)
  unfolding get_range
  take_bytes r n = do
    end ← within usize_max (r.position + n)
    value ← get_range r.bytes r.position end
    some (value, record r { position = end })

  -- The fold of `unsigned`, from a value already read.
  unfoldable pub big_endian : ℕ → List ℕ → Option ℕ
  big_endian value [] = some value
  big_endian value (b ∷ bs) = do
    shifted ← within usize_max (value * 256)
    next ← within usize_max (shifted + b)
    big_endian next bs

  unfoldable pub unsigned : BocReader → ℕ → Option (ℕ × BocReader)
  unfolding take_bytes big_endian
  unsigned r n = do (bytes, r') ← take_bytes r n; value ← big_endian 0 bytes; some (value, r')
