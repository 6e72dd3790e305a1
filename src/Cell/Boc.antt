-- ===== src/Cell/Boc.antt =====
-- The checks of every serialized cell (crates/ton-connect-core/src/cell_boc.rs, `validate_cells`).
pub mod Rows
pub mod Heights
pub mod Depth
pub mod Accepted
use wallet_engine.Base.{
  ℕ, zero, suc, ◌+◌, ◌*◌, ◌/◌, ◌%◌, Bool, true, false, ◌&&◌, ◌||◌, not, ◌==◌, Option, none, some,
  List, [], ◌∷◌, leb, if◌then◌else◌, length, get_elem?, set,
}
use Prim.Native.Nat.{max}
use wallet_engine.Base.Words.{within}
use wallet_engine.Base.Results.{Result, ok, err, ok_or, guard, ◌>>=◌, ◌>>◌}
use wallet_engine.Types.Value.{ValueError}
use wallet_engine.Cell.Reader.{BocReader, reader, is_empty, byte, take_bytes, unsigned}
use wallet_engine.Cell.Exotic.{max_cell_depth, bit, count_ones, exotic_layout_is_valid}

pub data CellBocError : Type 0 where
  base64 : ValueError → CellBocError
  invalid_boc : CellBocError

abbrev pub last : List ℕ → Option ℕ
last [] = none
last (x ∷ []) = some x
last (x ∷ y ∷ ys) = last (y ∷ ys)

-- A data field that does not fill its last byte ends in a completion tag, so that byte is not zero.
unfoldable pub lacks_tag : ℕ → List ℕ → Bool
unfolding bit
lacks_tag bits_descriptor data_bytes = elim (last data_bytes) [
  | none ↦ bit 0 bits_descriptor == 1
  | some tag ↦ bit 0 bits_descriptor == 1 && tag == 0
]

-- Whether the descriptor marks an exotic cell, or stored hashes.
unfoldable pub is_exotic : ℕ → Bool
unfolding bit
is_exotic descriptor = bit 3 descriptor == 1

unfoldable pub stores_hashes : ℕ → Bool
unfolding bit
stores_hashes descriptor = bit 4 descriptor == 1

-- `height.checked_add(1)` on `u16`, filtered by the largest depth.
unfoldable pub child_height : ℕ → Option ℕ
child_height height = if leb (height + 1) max_cell_depth then within 65535 (height + 1) else none

unfoldable pub data_length : ℕ → ℕ
unfolding bit
data_length bits_descriptor = bits_descriptor / 2 + bit 0 bits_descriptor

-- `expected_offsets.and_then(|o| o.get(cell_index)).is_some_and(|e| *e != position)`
unfoldable pub offset_differs : Option (List ℕ) → ℕ → BocReader → Bool
offset_differs none index r = false
offset_differs (some offsets) index r = elim (get_elem? offsets index) [
  | none ↦ false
  | some expected ↦ not (expected == r.position)
]

-- `vec![0_u16; cells]`
unfoldable pub zeros : ℕ → List ℕ
zeros zero = []
zeros (suc n) = 0 ∷ zeros n

module _ (usize_max : ℕ) where
  -- The two descriptor bytes of a cell, the number of its references, and the reader after them.
  unfoldable pub cell_descriptors : BocReader → Result CellBocError (ℕ × ℕ × BocReader)
  cell_descriptors r = do
    (descriptor, r') ← ok_or (byte usize_max r) invalid_boc
    (bits_descriptor, r'') ← ok_or (byte usize_max r') invalid_boc
    guard (leb (descriptor % 8) 4) invalid_boc
    ok (descriptor, bits_descriptor, r'')

  -- `if descriptor & 0x10 != 0 { … }`
  unfoldable pub skip_hashes : ℕ → BocReader → Result CellBocError BocReader
  unfolding stores_hashes count_ones
  skip_hashes descriptor r =
      if stores_hashes descriptor
      then (do
        hash_bytes ← ok_or (within usize_max ((count_ones (descriptor / 32) + 1) * 34)) invalid_boc
        (_, r') ← ok_or (take_bytes usize_max r hash_bytes) invalid_boc
        ok r')
      else ok r

  unfoldable pub cell_data : ℕ → ℕ → BocReader → Result CellBocError BocReader
  unfolding lacks_tag is_exotic data_length exotic_layout_is_valid
  cell_data descriptor bits_descriptor r = do
    data_bytes ← ok_or (within usize_max (data_length bits_descriptor)) invalid_boc
    (bytes, r') ← ok_or (take_bytes usize_max r data_bytes) invalid_boc
    guard (not (lacks_tag bits_descriptor bytes)) invalid_boc
    guard
        (not (
          is_exotic descriptor
          && not (
              exotic_layout_is_valid usize_max (descriptor / 32) bits_descriptor bytes
                (descriptor % 8))))
        invalid_boc
    ok r'

  -- The inner loop: `count` references are left of the cell at `index`, whose height is given.
  unfoldable pub validate_references :
      (reference_bytes cells index height : ℕ)
      → ℕ
      → BocReader × List ℕ
      → Result CellBocError (BocReader × List ℕ)
  unfolding child_height
  validate_references reference_bytes cells index height zero (r, heights) = ok (r, heights)
  validate_references reference_bytes cells index height (suc count) (r, heights) = do
    (reference, r') ← ok_or (unsigned usize_max r reference_bytes) invalid_boc
    guard (not (leb reference index || leb cells reference)) invalid_boc
    child ← ok_or (child_height height) invalid_boc
    slot ← ok_or (get_elem? heights reference) invalid_boc
    validate_references reference_bytes cells index height count
        (r', set heights reference (max slot child))

  -- The body of the outer loop.
  unfoldable pub validate_cell :
      (reference_bytes cells : ℕ)
      → Option (List ℕ)
      → ℕ
      → BocReader × List ℕ
      → Result CellBocError (BocReader × List ℕ)
  unfolding cell_descriptors skip_hashes cell_data validate_references offset_differs
  validate_cell reference_bytes cells offsets index (r, heights) = do
    (descriptor, bits_descriptor, r1) ← cell_descriptors r
    height ← ok_or (get_elem? heights index) invalid_boc
    r2 ← skip_hashes descriptor r1
    r3 ← cell_data descriptor bits_descriptor r2
    (r4, heights') ←
        validate_references reference_bytes cells index height (descriptor % 8) (r3, heights)
    guard (not (offset_differs offsets index r4)) invalid_boc
    ok (r4, heights')

  -- The outer loop: `count` cells are left, the next of them at `index`.
  unfoldable pub validate_from :
      (reference_bytes cells : ℕ)
      → Option (List ℕ)
      → (count index : ℕ) → BocReader × List ℕ
      → Result CellBocError (BocReader × List ℕ)
  unfolding validate_cell
  validate_from reference_bytes cells offsets zero index state = ok state
  validate_from reference_bytes cells offsets (suc count) index state = do
    next ← validate_cell reference_bytes cells offsets index state
    validate_from reference_bytes cells offsets count (index + 1) next

  unfoldable pub validate_cells :
      List ℕ → (cells reference_bytes : ℕ) → Option (List ℕ) → Result CellBocError (Unit {0})
  unfolding validate_from zeros reader is_empty
  validate_cells bytes cells reference_bytes offsets = do
    (r, heights) ← validate_from reference_bytes cells offsets cells 0 (reader bytes, zeros cells)
    guard (is_empty r) invalid_boc
    ok tt
