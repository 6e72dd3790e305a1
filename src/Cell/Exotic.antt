-- ===== src/Cell/Exotic.antt =====
-- The layouts that an exotic cell may have (crates/ton-connect-core/src/cell_boc.rs,
-- `exotic_layout_is_valid` and `pruned_branch_is_valid`).
use wallet_engine.Base.{
  ℕ, ◌+◌, ◌*◌, ◌/◌, ◌%◌, ◌^◌, Bool, true, false, ◌&&◌, ◌||◌, not, ◌==◌, Option, none, some, List,
  [], ◌∷◌, leb, length, get_elem?,
}
use wallet_engine.Base.Words.{within}
use wallet_engine.Base.Options.{◌>>=◌}
use wallet_engine.Cell.Reader.{get_range}

abbrev pub max_cell_depth : ℕ
max_cell_depth = 1024

abbrev pub pruned_branch : ℕ
pruned_branch = 1

abbrev pub library : ℕ
library = 2

abbrev pub merkle_proof : ℕ
merkle_proof = 3

abbrev pub merkle_update : ℕ
merkle_update = 4

abbrev pub type_bytes : ℕ
type_bytes = 1

abbrev pub hash_bytes : ℕ
hash_bytes = 32

abbrev pub depth_bytes : ℕ
depth_bytes = 2

abbrev pub pruned_branch_header_bytes : ℕ
pruned_branch_header_bytes = type_bytes + 1

abbrev pub library_bytes : ℕ
library_bytes = type_bytes + hash_bytes

abbrev pub merkle_proof_bytes : ℕ
merkle_proof_bytes = type_bytes + hash_bytes + depth_bytes

abbrev pub merkle_update_bytes : ℕ
merkle_update_bytes = type_bytes + 2 * (hash_bytes + depth_bytes)

-- Bit `k` of a byte, as a number.
unfoldable pub bit : ℕ → ℕ → ℕ
bit k n = n / 2 ^ k % 2

-- `u8::count_ones`
unfoldable pub count_ones : ℕ → ℕ
unfolding bit
count_ones n = bit 0 n + bit 1 n + bit 2 n + bit 3 n + bit 4 n + bit 5 n + bit 6 n + bit 7 n

-- `chunks_exact(2)` with each depth at most `max_cell_depth`; an odd byte at the end is left out.
unfoldable pub depths_are_valid : List ℕ → Bool
depths_are_valid [] = true
depths_are_valid (high ∷ []) = true
depths_are_valid (high ∷ low ∷ rest) =
    leb (high * 256 + low) max_cell_depth && depths_are_valid rest

module _ (usize_max : ℕ) where
  -- The bytes of a pruned branch after its hashes: `data.get(start..)`.
  unfoldable pub pruned_depths : ℕ → List ℕ → Option (List ℕ)
  unfolding get_range
  pruned_depths levels bytes = do
    hashes ← within usize_max (levels * hash_bytes)
    start ← within usize_max (hashes + pruned_branch_header_bytes)
    get_range bytes start (length bytes)

  -- `levels.checked_mul(DEPTH_BYTES) == Some(depths.len()) && …`
  unfoldable pub depths_match : ℕ → Option (List ℕ) → Bool
  unfolding depths_are_valid
  depths_match levels none = false
  depths_match levels (some depths) =
      (leb (levels * depth_bytes) usize_max && levels * depth_bytes == length depths)
      && depths_are_valid depths

  unfoldable pub pruned_branch_is_valid : ℕ → List ℕ → Bool
  unfolding count_ones pruned_depths depths_match
  pruned_branch_is_valid level_mask bytes = elim (get_elem? bytes type_bytes) [
    | none ↦ false
    | some mask ↦
        not (mask == 0 || not (mask == level_mask))
        && depths_match (count_ones mask) (pruned_depths (count_ones mask) bytes)
  ]

  -- The match on the type byte and the number of references.
  unfoldable pub layout_matches : Option ℕ → ℕ → ℕ → List ℕ → Bool
  unfolding pruned_branch_is_valid
  layout_matches none references level_mask bytes = false
  layout_matches (some kind) references level_mask bytes =
      kind == pruned_branch && references == 0 && pruned_branch_is_valid level_mask bytes
      || kind == library && references == 0 && length bytes == library_bytes
      || kind == merkle_proof && references == 1 && length bytes == merkle_proof_bytes
      || kind == merkle_update && references == 2 && length bytes == merkle_update_bytes

  unfoldable pub exotic_layout_is_valid : ℕ → ℕ → List ℕ → ℕ → Bool
  unfolding layout_matches bit
  exotic_layout_is_valid level_mask bits_descriptor bytes references =
      bit 0 bits_descriptor == 0 && layout_matches (get_elem? bytes 0) references level_mask bytes
