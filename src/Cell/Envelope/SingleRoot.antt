-- ===== src/Cell/Envelope/SingleRoot.antt =====
-- What an accepted envelope holds (crates/ton-connect-core/src/cell_boc.rs,
-- `validate_single_root_boc`).
use wallet_engine.Base.{ℕ, ◌+◌, ◌==◌, ◌≡◌, refl, ==_iff, some, List, length}
use wallet_engine.Base.Holds.{holds, Holds->>=, Holds->>, Holds-ok_or, Holds-guard, Holds-of-ok}
use wallet_engine.Base.Results.{ok}
use wallet_engine.Cell.Reader.{reader, is_empty, take_bytes, get_range}
use wallet_engine.Cell.Boc.{invalid_boc, validate_cells}
use wallet_engine.Cell.Boc.Accepted.{IsAccepted, validate_cells-IsAccepted}
use wallet_engine.Cell.Envelope.{
  BocHeader, read_header, read_index, check_crc, validate_single_root_boc,
}
use wallet_engine.Cell.Envelope.Layout.{IsHeader, IsIndex, IsChecked, IsAt, header_size, take-IsAt}
use wallet_engine.Cell.Envelope.Places.{
  read_header-IsHeader, read_index-IsIndex, check_crc-IsChecked,
}

-- What the parser that runs next relies on: the header, then its index, the cells, and the checksum.
pub record IsSingleRoot (usize_max : ℕ) (checksum : List ℕ → ℕ) (bytes : List ℕ) : Type 0 where
  pub header : BocHeader
  pub is_header : IsHeader bytes header
  pub start : ℕ
  pub index : IsIndex bytes header (header_size header) header.has_index start
  pub cells : List ℕ
  pub cells_present : get_range bytes start (start + header.cell_bytes) ≡ some cells
  pub accepted : IsAccepted usize_max cells header.cells header.reference_bytes
  pub is_checked : IsChecked checksum bytes (start + header.cell_bytes) header.has_crc32c

-- Bytes that the validator accepts are a header with the magic, then the index that the header
-- announces, whose offsets increase up to the size of the cells, then the serialized cells, then the
-- checksum that the header announces, which is that of all the bytes before it, and nothing else. The
-- header gives one root, which is one of the cells, no absent cell, and no more cells than half the
-- size of the cells; the cells are accepted as `validate_cells` accepts them.
pub validate_single_root_boc-IsSingleRoot :
    (usize_max : ℕ) (checksum : List ℕ → ℕ) (bytes : List ℕ)
    → validate_single_root_boc usize_max checksum bytes ≡ ok tt
    → IsSingleRoot usize_max checksum bytes
unfolding validate_single_root_boc reader is_empty
validate_single_root_boc-IsSingleRoot usize_max checksum bytes h =
    Holds-of-ok (λ _. IsSingleRoot usize_max checksum bytes) _ tt
      (Holds->>= _ (read_header usize_max (reader bytes)) _ λ (header, r1) reads.
        Holds->>= _ (read_index usize_max header r1) _ λ (offsets, r2) index.
          Holds-ok_or _ (take_bytes usize_max r2 header.cell_bytes) invalid_boc _
            λ (cells, r3) taken.
              Holds->> _
                (validate_cells usize_max cells header.cells header.reference_bytes offsets) _
                λ valid. Holds->>= _ (check_crc usize_max checksum header r3) _ λ r4 crc.
                  Holds-guard _ (r4.position == length r4.bytes) invalid_boc _ λ empty.
                    let at0 : IsAt bytes 0 (reader bytes) = (refl, refl) in
                    let (is_header, at1) =
                      Holds-of-ok _ _ (header, r1)
                        (read_header-IsHeader usize_max bytes (reader bytes) at0) reads in
                    let (start, at2, is_index) =
                      Holds-of-ok _ _ (offsets, r2)
                        (read_index-IsIndex usize_max bytes header (header_size header) r1 at1)
                        index in
                    let (at3, present) =
                      take-IsAt usize_max bytes start r2 r3 header.cell_bytes cells at2 taken in
                    let ends =
                      Holds-of-ok _ _ r4
                        (check_crc-IsChecked usize_max bytes checksum header
                          (start + header.cell_bytes) r3 at3)
                        crc in
                    holds (record {
                      header = header;
                      is_header = is_header;
                      start = start;
                      index = is_index;
                      cells = cells;
                      cells_present = present;
                      accepted =
                          validate_cells-IsAccepted usize_max cells header.cells
                            header.reference_bytes offsets valid;
                      is_checked = ends ((==_iff r4.position (length r4.bytes)).0 empty);
                    }))
      h
