-- ===== src/Cell/Envelope/Places.antt =====
-- Where the validator of an envelope reads what (crates/ton-connect-core/src/cell_boc.rs,
-- `validate_single_root_boc`).
use wallet_engine.Base.Bytes.{same_bytes, same_bytes-eq}
use wallet_engine.Base.{
  ℕ, zero, suc, ◌+◌, ◌-◌, ◌*◌, ◌/◌, ◌%◌, ◌≤◌, ◌<◌, true, not, ◌||◌, ◌&&◌, ◌==◌, ◌≡◌, refl, some,
  List, arith, length, leb, Bool-cases, inl, inr, ==_iff, subst, get_elem?,
}
use wallet_engine.Base.Words.{within}
use wallet_engine.Base.Holds.{Holds, holds, Holds->>=, Holds-ok_or, Holds-guard, Holds-of-ok}
use wallet_engine.Cell.Reader.{BocReader, byte, take_bytes, unsigned, get_range}
use wallet_engine.Cell.Exotic.{bit}
use wallet_engine.Cell.Boc.{invalid_boc}
use wallet_engine.Cell.Envelope.{
  BocHeader, generic_boc_magic, little_endian, read_flags, read_counts, read_header, read_offsets,
  read_index, check_crc,
}
use wallet_engine.Cell.Envelope.Layout.{
  IsNumberAt, IsHeader, header_size, IsOffsets, no_more, one_more, IsIndex, no_index, with_index,
  IsChecked, unchecked, checked, IsAt, byte-IsAt, take-IsAt, unsigned-IsAt,
}

counts_test :
    (cells roots absent cell_bytes : ℕ)
    → not (cells == 0 || not (roots == 1) || not (absent == 0) || not (leb cells (cell_bytes / 2)))
      ≡ true
    → (roots ≡ 1) × (absent ≡ 0) × (cells * 2 ≤ cell_bytes)
counts_test cells roots absent cell_bytes h = ground arith

flags_test :
    (b : ℕ)
    → (b / 8 % 4 == 0 && (leb 1 (b % 8) && leb (b % 8) 4)) ≡ true
    → (b / 8 % 4 ≡ 0) × (1 ≤ b % 8) × (b % 8 ≤ 4)
flags_test b h = ground arith

size_test : (n : ℕ) → (leb 1 n && leb n 8) ≡ true → (1 ≤ n) × (n ≤ 8)
size_test n h = ground arith

offset_test :
    (offset previous cell_bytes : ℕ)
    → not (leb offset previous || not (leb offset cell_bytes)) ≡ true
    → previous < offset
offset_test offset previous cell_bytes h = ground arith

module _ (usize_max : ℕ) (bytes : List ℕ) where
  -- What the header byte says.
  IsFlagged : ℕ → BocReader → Type 0
  IsFlagged flags r =
      IsAt bytes 5 r
      × (get_range bytes 0 4 ≡ some generic_boc_magic)
      × (get_elem? bytes 4 ≡ some flags)
      × (flags / 8 % 4 ≡ 0)
      × (1 ≤ flags % 8)
      × (flags % 8 ≤ 4)

  read_flags-IsFlagged :
      (r : BocReader) → IsAt bytes 0 r → Holds (λ s. IsFlagged s.0 s.1) (read_flags usize_max r)
  unfolding read_flags IsFlagged
  read_flags-IsFlagged r at = Holds-ok_or _ _ _ _ λ (magic, r1) taken.
      Holds-guard _ (same_bytes magic generic_boc_magic) invalid_boc _ λ is_magic.
        Holds-ok_or _ _ invalid_boc _ λ (flags, r2) read.
          Holds-guard _ (flags / 8 % 4 == 0 && (leb 1 (flags % 8) && leb (flags % 8) 4)) invalid_boc
            _
            λ test.
              let (at1, range) = take-IsAt usize_max bytes 0 r r1 4 magic at taken in
              let (at2, found) = byte-IsAt usize_max bytes 4 r1 r2 flags at1 read in
              let same = same_bytes-eq magic generic_boc_magic is_magic in
              let (reserved, low, high) = flags_test flags test in
              holds (at2, rw (← same) range, found, reserved, low, high)

  -- The counts from the position on.
  IsCounted : (position n m : ℕ) → ℕ × ℕ × BocReader → Type 0
  IsCounted position n m (cells, cell_bytes, r) =
      IsAt bytes (position + n + n + n + m) r
      × IsNumberAt bytes position n cells
      × IsNumberAt bytes (position + n) n 1
      × IsNumberAt bytes (position + n + n) n 0
      × IsNumberAt bytes (position + n + n + n) m cell_bytes
      × (cells * 2 ≤ cell_bytes)

  read_counts-IsCounted :
      (position n m : ℕ) (r : BocReader)
      → IsAt bytes position r
      → Holds (IsCounted position n m) (read_counts usize_max n m r)
  unfolding read_counts IsCounted
  read_counts-IsCounted position n m r at = Holds-ok_or _ _ _ _ λ (cells, r1) read1.
      Holds-ok_or _ _ _ _ λ (roots, r2) read2. Holds-ok_or _ _ _ _ λ (absent, r3) read3.
        Holds-ok_or _ _ _ _ λ (cell_bytes, r4) read4. Holds-guard _ _ _ _ λ test.
          let (at1, is1) = unsigned-IsAt usize_max bytes position r r1 n cells at read1 in
          let (at2, is2) = unsigned-IsAt usize_max bytes (position + n) r1 r2 n roots at1 read2 in
          let (at3, is3) =
            unsigned-IsAt usize_max bytes (position + n + n) r2 r3 n absent at2 read3 in
          let (at4, is4) =
            unsigned-IsAt usize_max bytes (position + n + n + n) r3 r4 m cell_bytes at3 read4 in
          let (one, none_absent, enough) = counts_test cells roots absent cell_bytes test in
          holds (
            at4,
            is1,
            subst (IsNumberAt bytes (position + n) n) one is2,
            subst (IsNumberAt bytes (position + n + n) n) none_absent is3,
            is4,
            enough,
          )

  pub read_header-IsHeader :
      (r : BocReader)
      → IsAt bytes 0 r
      → Holds (λ s. IsHeader bytes s.0 × IsAt bytes (header_size s.0) s.1) (read_header usize_max r)
  unfolding read_header IsFlagged IsCounted bit
  read_header-IsHeader r at = Holds->>= _ (read_flags usize_max r) _ λ (flags, r1) is_flags.
      Holds-ok_or _ (byte usize_max r1) invalid_boc _ λ (m, r2) read.
        Holds-guard _ (leb 1 m && leb m 8) invalid_boc _ λ sized.
          Holds->>= _ (read_counts usize_max (flags % 8) m r2) _ λ (cells, cell_bytes, r3) counts.
            Holds-ok_or _ (unsigned usize_max r3 (flags % 8)) invalid_boc _ λ (root, r4) root_read.
              Holds-guard _ (not (leb cells root)) invalid_boc _ λ test.
                let (at1, magic, flags_at, reserved, low, high) =
                  Holds-of-ok _ _ (flags, r1) (read_flags-IsFlagged r at) is_flags in
                let (at2, offset_at) = byte-IsAt usize_max bytes 5 r1 r2 m at1 read in
                let (at3, cells_at, one_root, none_absent, cell_bytes_at, enough) =
                  Holds-of-ok _ _ (cells, cell_bytes, r3)
                    (read_counts-IsCounted 6 (flags % 8) m r2 at2) counts in
                let (at4, root_at) =
                  unsigned-IsAt usize_max bytes (6 + flags % 8 + flags % 8 + flags % 8 + m) r3 r4
                    (flags % 8) root at3 root_read in
                holds (
                  record {
                    flags = flags;
                    magic = magic;
                    flags_at = flags_at;
                    reserved = reserved;
                    index_flag = refl;
                    crc_flag = refl;
                    reference_size = refl;
                    reference_bounds = (low, high);
                    offset_at = offset_at;
                    offset_bounds = size_test m sized;
                    cells_at = cells_at;
                    one_root = one_root;
                    none_absent = none_absent;
                    cell_bytes_at = cell_bytes_at;
                    root_at = root_at;
                    cells_backed = enough;
                    root_inside = ground arith;
                  },
                  at4,
                )

  read_offsets-IsOffsets :
      (m cell_bytes count previous position : ℕ) (r : BocReader)
      → IsAt bytes position r
      → Holds
          (λ s.
            (last : ℕ) × IsAt bytes last s.1
            × IsOffsets bytes m cell_bytes position previous count last)
          (read_offsets usize_max m cell_bytes count previous r)
  unfolding read_offsets
  read_offsets-IsOffsets m cell_bytes zero previous position r at =
      Holds-guard _ (previous == cell_bytes) invalid_boc _
        λ ends. let is = (==_iff previous cell_bytes).0 ends in holds (position, at, rw is no_more)
  read_offsets-IsOffsets m cell_bytes (suc count) previous position r at =
      Holds-ok_or _ (unsigned usize_max r m) invalid_boc _ λ (offset, r1) read.
        Holds-guard _ (not (leb offset previous || not (leb offset cell_bytes))) invalid_boc _
          λ test.
            Holds->>= _ (read_offsets usize_max m cell_bytes count offset r1) _
              λ (offsets, r2) rest.
                let (at1, is) = unsigned-IsAt usize_max bytes position r r1 m offset at read in
                let (last, at2, others) =
                  Holds-of-ok _ _ (offsets, r2)
                    (read_offsets-IsOffsets m cell_bytes count offset (position + m) r1 at1) rest in
                holds (last, at2, one_more is (offset_test offset previous cell_bytes test) others)

  pub read_index-IsIndex :
      (h : BocHeader) (position : ℕ) (r : BocReader)
      → IsAt bytes position r
      → Holds
          (λ s. (last : ℕ) × IsAt bytes last s.1 × IsIndex bytes h position h.has_index last)
          (read_index usize_max h r)
  unfolding read_index
  read_index-IsIndex h position r at = elim (Bool-cases h.has_index) [
    | inl has ↦ rw has (
        Holds-ok_or _ (within usize_max (h.cells * h.offset_bytes)) invalid_boc _ λ index_bytes _.
          Holds-ok_or _ (within usize_max (index_bytes + h.cell_bytes)) invalid_boc _ λ needed _.
            Holds-guard _ (leb r.position (length r.bytes)) invalid_boc _ λ _.
              Holds-guard _ (leb needed (length r.bytes - r.position)) invalid_boc _ λ _.
                Holds->>= _ (read_offsets usize_max h.offset_bytes h.cell_bytes h.cells 0 r) _
                  λ (offsets, r1) read.
                    let (last, at1, is) =
                      Holds-of-ok _ _ (offsets, r1)
                        (read_offsets-IsOffsets h.offset_bytes h.cell_bytes h.cells 0 position r at)
                        read in
                    holds (last, at1, with_index is))
    | inr lacks ↦ rw lacks (holds (position, at, no_index))
  ]

  at_end :
      (r : BocReader) (position : ℕ)
      → IsAt bytes position r
      → r.position ≡ length r.bytes
      → length bytes ≡ position
  at_end r position (same, at) empty = rw (← same, ← at) cc

  pub check_crc-IsChecked :
      (checksum : List ℕ → ℕ) (h : BocHeader) (position : ℕ) (r : BocReader)
      → IsAt bytes position r
      → Holds
          (λ s. s.position ≡ length s.bytes → IsChecked checksum bytes position h.has_crc32c)
          (check_crc usize_max checksum h r)
  unfolding check_crc
  check_crc-IsChecked checksum h position r (same, at) = elim (Bool-cases h.has_crc32c) [
    | inl has ↦ rw has (
        Holds-ok_or _ (take_bytes usize_max r 4) invalid_boc _ λ (stored, r1) taken.
          Holds-ok_or _ (get_range r.bytes 0 r.position) invalid_boc _ λ covered ranged.
            Holds-guard _ (little_endian stored == checksum covered) invalid_boc _ λ test.
              let ((same1, at1), range) =
                take-IsAt usize_max bytes position r r1 4 stored (same, at) taken in
              holds (λ empty.
                checked (rw (← same, ← at) ranged) range
                  ((==_iff (little_endian stored) (checksum covered)).0 test)
                  (at_end r1 (position + 4) (same1, at1) empty)))
    | inr lacks ↦ rw lacks (holds (λ empty. unchecked (at_end r position (same, at) empty)))
  ]
