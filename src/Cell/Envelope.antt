-- ===== src/Cell/Envelope.antt =====
-- The envelope of an untrusted BoC: header, index, cells and checksum
-- (crates/ton-connect-core/src/cell_boc.rs, `validate_single_root_boc`). The CRC-32C of the crc
-- package is the parameter `checksum`.
pub mod Layout
pub mod Places
pub mod SingleRoot
use Prim.Native.Nat.{max}
use wallet_engine.Base.Bytes.{same_bytes}
use wallet_engine.Base.{
  ℕ, zero, suc, ◌+◌, ◌-◌, ◌*◌, ◌/◌, ◌%◌, ◌^◌, Bool, true, false, ◌&&◌, ◌||◌, not, ◌==◌, Option,
  none, some, List, [], ◌∷◌, leb, if◌then◌else◌, length, take,
}
use wallet_engine.Base.Words.{within}
use wallet_engine.Base.Results.{Result, ok, err, ok_or, guard, ◌>>=◌, ◌>>◌}
use wallet_engine.Cell.Reader.{BocReader, reader, is_empty, byte, take_bytes, unsigned, get_range}
use wallet_engine.Cell.Exotic.{bit}
use wallet_engine.Cell.Boc.{CellBocError, invalid_boc, validate_cells}

abbrev pub generic_boc_magic : List ℕ
generic_boc_magic = 0xb5 ∷ 0xee ∷ 0x9c ∷ 0x72 ∷ []

-- `u32::from_le_bytes`
abbrev pub little_endian : List ℕ → ℕ
little_endian [] = 0
little_endian (b ∷ bs) = b + 256 * little_endian bs

-- The locals of the function once the header and the root were read.
pub record BocHeader : Type 0 where
  pub has_index : Bool
  pub has_crc32c : Bool
  pub reference_bytes : ℕ
  pub offset_bytes : ℕ
  pub cells : ℕ
  pub cell_bytes : ℕ
  pub root : ℕ

module _ (usize_max : ℕ) where
  -- Up to the check of the flags: the header byte.
  unfoldable pub read_flags : BocReader → Result CellBocError (ℕ × BocReader)
  read_flags r = do
    (magic, r1) ← ok_or (take_bytes usize_max r (length generic_boc_magic)) invalid_boc
    guard (same_bytes magic generic_boc_magic) invalid_boc
    (header, r2) ← ok_or (byte usize_max r1) invalid_boc
    guard (header / 8 % 4 == 0 && (leb 1 (header % 8) && leb (header % 8) 4)) invalid_boc
    ok (header, r2)

  -- The counts, of which only the number of cells and of their bytes are kept.
  unfoldable pub read_counts :
      (reference_bytes offset_bytes : ℕ) → BocReader → Result CellBocError (ℕ × ℕ × BocReader)
  read_counts reference_bytes offset_bytes r = do
    (cells, r1) ← ok_or (unsigned usize_max r reference_bytes) invalid_boc
    (roots, r2) ← ok_or (unsigned usize_max r1 reference_bytes) invalid_boc
    (absent, r3) ← ok_or (unsigned usize_max r2 reference_bytes) invalid_boc
    (cell_bytes, r4) ← ok_or (unsigned usize_max r3 offset_bytes) invalid_boc
    guard
        (not
          (cells == 0 || not (roots == 1) || not (absent == 0) || not (leb cells (cell_bytes / 2))))
        invalid_boc
    ok (cells, cell_bytes, r4)

  unfoldable pub read_header : BocReader → Result CellBocError (BocHeader × BocReader)
  unfolding read_flags read_counts bit
  read_header r = do
    (header, r1) ← read_flags r
    (offset_bytes, r2) ← ok_or (byte usize_max r1) invalid_boc
    guard (leb 1 offset_bytes && leb offset_bytes 8) invalid_boc
    (cells, cell_bytes, r3) ← read_counts (header % 8) offset_bytes r2
    (root, r4) ← ok_or (unsigned usize_max r3 (header % 8)) invalid_boc
    guard (not (leb cells root)) invalid_boc
    ok (
      record {
        has_index = bit 7 header == 1;
        has_crc32c = bit 6 header == 1;
        reference_bytes = header % 8;
        offset_bytes = offset_bytes;
        cells = cells;
        cell_bytes = cell_bytes;
        root = root;
      },
      r4,
    )

  -- The loop over the index: `count` offsets are left, above `previous`.
  unfoldable pub read_offsets :
      (offset_bytes cell_bytes : ℕ)
      → (count previous : ℕ) → BocReader
      → Result CellBocError (List ℕ × BocReader)
  read_offsets offset_bytes cell_bytes zero previous r = do
    guard (previous == cell_bytes) invalid_boc
    ok ([], r)
  read_offsets offset_bytes cell_bytes (suc count) previous r = do
    (offset, r1) ← ok_or (unsigned usize_max r offset_bytes) invalid_boc
    guard (not (leb offset previous || not (leb offset cell_bytes))) invalid_boc
    (offsets, r2) ← read_offsets offset_bytes cell_bytes count offset r1
    ok (offset ∷ offsets, r2)

  unfoldable pub read_index :
      BocHeader → BocReader → Result CellBocError (Option (List ℕ) × BocReader)
  unfolding read_offsets
  read_index h r =
      if h.has_index
      then (do
        index_bytes ← ok_or (within usize_max (h.cells * h.offset_bytes)) invalid_boc
        needed ← ok_or (within usize_max (index_bytes + h.cell_bytes)) invalid_boc
        guard (leb r.position (length r.bytes)) invalid_boc
        guard (leb needed (length r.bytes - r.position)) invalid_boc
        (offsets, r1) ← read_offsets h.offset_bytes h.cell_bytes h.cells 0 r
        ok (some offsets, r1))
      else ok (none, r)

  -- `checksum` is the CRC-32C of the crc package.
  unfoldable pub check_crc :
      (checksum : List ℕ → ℕ) → BocHeader → BocReader → Result CellBocError BocReader
  unfolding get_range
  check_crc checksum h r =
      if h.has_crc32c
      then (do
        (stored, r1) ← ok_or (take_bytes usize_max r 4) invalid_boc
        covered ← ok_or (get_range r.bytes 0 r.position) invalid_boc
        guard (little_endian stored == checksum covered) invalid_boc
        ok r1)
      else ok r

  unfoldable pub validate_single_root_boc :
      (checksum : List ℕ → ℕ) → List ℕ → Result CellBocError (Unit {0})
  unfolding read_header read_index check_crc reader is_empty
  validate_single_root_boc checksum bytes = do
    (h, r1) ← read_header (reader bytes)
    (offsets, r2) ← read_index h r1
    (serialized_cells, r3) ← ok_or (take_bytes usize_max r2 h.cell_bytes) invalid_boc
    validate_cells usize_max serialized_cells h.cells h.reference_bytes offsets
    r4 ← check_crc checksum h r3
    guard (is_empty r4) invalid_boc
    ok tt
