-- ===== src/Cell/Boc/Depth.antt =====
-- What `validate_cells` of crates/ton-connect-core/src/cell_boc.rs promises of the cells that it accepts.
use wallet_engine.Base.{
  ℕ, zero, suc, ◌+◌, ◌<◌, ◌%◌, ◌/◌, ◌&&◌, not, ◌≡◌, refl, ap, subst, Option, some, List, [], ◌∷◌,
  arith, get_elem?, length, leb,
}
use wallet_engine.Base.Results.{ok, >>=-eq-ok, ok_or->>=, guard->>, checked_last}
use wallet_engine.Base.Words.{within}
use wallet_engine.Cell.Exotic.{exotic_layout_is_valid}
use wallet_engine.Cell.Reader.{BocReader, byte, take_bytes}
use wallet_engine.Cell.Boc.{
  cell_descriptors, skip_hashes, cell_data, data_length, lacks_tag, is_exotic, validate_references,
  offset_differs, validate_cell, validate_from,
}
use wallet_engine.Cell.Boc.Rows.{read_references, read_row, read_rows}
use wallet_engine.Cell.Boc.Heights.{
  Grows, Grows-refl, Grows-trans, Capped, IsHigher, IsHigher-Grows, References-loop,
}

-- Every reference of the rows is higher than its cell, the first of them standing at `index`.
unfoldable pub IsLayered : ℕ → ℕ → List ℕ → List (List ℕ) → Type 0
IsLayered cells index hs rows =
    (i j : ℕ) (row : List ℕ) (place : ℕ)
    → get_elem? rows i ≡ some row
    → get_elem? row place ≡ some j
    → (h : ℕ) × (get_elem? hs (index + i) ≡ some h) × IsHigher cells (index + i) h hs j

pub within_is : (bound n m : ℕ) → within bound n ≡ some m → n ≡ m
within_is bound n m h = ground arith

module _ (usize_max : ℕ) where
  descriptors-read :
      (r r' : BocReader) (d b : ℕ)
      → cell_descriptors usize_max r ≡ ok (d, b, r')
      → (r1 : BocReader) × (byte usize_max r ≡ some (d, r1)) × (byte usize_max r1 ≡ some (b, r'))
  unfolding cell_descriptors
  descriptors-read r r' d b h =
      let ((d1, r1), read, h1) = ok_or->>= (byte usize_max r) _ _ h in
      let ((b1, r2), read2, h2) = ok_or->>= (byte usize_max r1) _ _ h1 in
      let (_, h3) = guard->> (leb (d1 % 8) 4) _ _ h2 in (r1, cc, cc)

  data-read :
      (r r' : BocReader) (d b : ℕ)
      → cell_data usize_max d b r ≡ ok r'
      → (bytes : List ℕ) × (take_bytes usize_max r (data_length b) ≡ some (bytes, r'))
  unfolding cell_data
  data-read r r' d b h =
      let (n, small, h1) = ok_or->>= (within usize_max (data_length b)) _ _ h in
      let ((bytes, r1), read, h2) = ok_or->>= (take_bytes usize_max r n) _ _ h1 in
      let (_, h3) = guard->> (not (lacks_tag b bytes)) _ _ h2 in
      let (_, h4) =
        guard->>
          (not (is_exotic d && not (exotic_layout_is_valid usize_max (d / 32) b bytes (d % 8)))) _ _
          h3 in
      let same : data_length b ≡ n = within_is _ _ n small in (bytes, rw same cc)

-- One turn of the outer loop.
record CellRead (usize_max reference_bytes cells index : ℕ) (s s' : BocReader × List ℕ)
    : Type 0 where
  pub references : List ℕ
  pub height : ℕ
  pub reads : read_row usize_max reference_bytes s.0 ≡ ok (references, s'.0)
  pub height_at : get_elem? s.1 index ≡ some height
  pub higher :
      (place j : ℕ) → get_elem? references place ≡ some j → IsHigher cells index height s'.1 j
  pub grows : Grows (index + 1) s.1 s'.1
  pub capped : Capped s'.1

-- What the outer loop leaves behind.
pub record CellsRead (usize_max reference_bytes cells count index : ℕ) (s s' : BocReader × List ℕ)
    : Type 0 where
  pub rows : List (List ℕ)
  pub reads : read_rows usize_max reference_bytes count s.0 ≡ ok (rows, s'.0)
  pub counted : length rows ≡ count
  pub layered : IsLayered cells index s'.1 rows
  pub grows : Grows (index + 1) s.1 s'.1
  pub capped : Capped s'.1

module _ (usize_max reference_bytes cells : ℕ) (offsets : Option (List ℕ)) where
  -- The height of a cell that no later turn changes.
  height_stays :
      (limit index h : ℕ) (hs hs' : List ℕ)
      → index < limit
      → Grows limit hs hs'
      → get_elem? hs index ≡ some h
      → get_elem? hs' index ≡ some h
  height_stays limit index h hs hs' lt g at =
      let (v, now, _, same) = g index h at in rw (← same lt) now

  IsLayered-cons :
      (index h : ℕ) (hs : List ℕ) (references : List ℕ) (rows : List (List ℕ))
      → get_elem? hs index ≡ some h
      → ((place j : ℕ) → get_elem? references place ≡ some j → IsHigher cells index h hs j)
      → IsLayered cells (index + 1) hs rows
      → IsLayered cells index hs (references ∷ rows)
  unfolding IsLayered
  IsLayered-cons index h hs references rows at higher rest zero j row place is ref =
      let same : references ≡ row = cc in
      let plus : index + 0 ≡ index = omega arith in rw plus (h, at, higher place j (rw same ref))
  IsLayered-cons index h hs references rows at higher rest (suc i) j row place is ref =
      let plus : index + suc i ≡ index + 1 + i = omega arith in rw plus (rest i j row place is ref)

  row-reads :
      (r r1 r2 r3 r4 r5 : BocReader) (d b : ℕ) (bytes references : List ℕ)
      → byte usize_max r ≡ some (d, r1)
      → byte usize_max r1 ≡ some (b, r2)
      → skip_hashes usize_max d r2 ≡ ok r3
      → take_bytes usize_max r3 (data_length b) ≡ some (bytes, r4)
      → read_references usize_max reference_bytes (d % 8) r4 ≡ ok (references, r5)
      → read_row usize_max reference_bytes r ≡ ok (references, r5)
  unfolding read_row
  row-reads r r1 r2 r3 r4 r5 d b bytes references h1 h2 h3 h4 h5 = rw (h1, h2, h3, h4) h5

  cell-parts :
      (index : ℕ) (r : BocReader) (hs : List ℕ) (s' : BocReader × List ℕ)
      → validate_cell usize_max reference_bytes cells offsets index (r, hs) ≡ ok s'
      → (d : ℕ) × (b : ℕ) × (r1 : BocReader) × (height : ℕ) × (r2 : BocReader) × (r3 : BocReader)
        × (cell_descriptors usize_max r ≡ ok (d, b, r1))
        × (get_elem? hs index ≡ some height)
        × (skip_hashes usize_max d r1 ≡ ok r2)
        × (cell_data usize_max d b r2 ≡ ok r3)
        × (validate_references usize_max reference_bytes cells index height (d % 8) (r3, hs)
            ≡ ok s')
  unfolding validate_cell
  cell-parts index r hs s' h =
      let ((d, b, r1), descriptors, h1) = >>=-eq-ok (cell_descriptors usize_max r) _ h in
      let (height, at, h2) = ok_or->>= (get_elem? hs index) _ _ h1 in
      let (r2, hashes, h3) = >>=-eq-ok (skip_hashes usize_max d r1) _ h2 in
      let (r3, contents, h4) = >>=-eq-ok (cell_data usize_max d b r2) _ h3 in
      (
        d,
        b,
        r1,
        height,
        r2,
        r3,
        descriptors,
        at,
        hashes,
        contents,
        checked_last
            (validate_references usize_max reference_bytes cells index height (d % 8) (r3, hs))
            (λ s. not (offset_differs offsets index s.0)) _ h4,
      )

  cell-read :
      (index : ℕ) (r : BocReader) (hs : List ℕ) (s' : BocReader × List ℕ)
      → Capped hs
      → validate_cell usize_max reference_bytes cells offsets index (r, hs) ≡ ok s'
      → CellRead usize_max reference_bytes cells index (r, hs) s'
  cell-read index r hs s' c h =
      let (d, b, r1, height, r2, r3, descriptors, at, hashes, contents, loop) =
        cell-parts index r hs s' h in
      let refs =
        References-loop usize_max reference_bytes cells index height (d % 8) r3 hs s' c loop in
      let (r0, first, second) = descriptors-read usize_max r r1 d b descriptors in
      let (bytes, skipped) = data-read usize_max r2 r3 d b contents in
      record {
        references = refs.row;
        height = height;
        reads =
            row-reads r r0 r1 r2 r3 s'.0 d b bytes refs.row first second hashes skipped refs.reads;
        height_at = at;
        higher = refs.higher;
        grows = refs.grows;
        capped = refs.capped;
      }

  no_cells :
      (index : ℕ) (s : BocReader × List ℕ)
      → Capped s.1
      → CellsRead usize_max reference_bytes cells zero index s s
  unfolding read_rows IsLayered
  no_cells index s c = record {
    rows = [];
    reads = refl;
    counted = refl;
    layered = λ i j row place is ref. absurd cc;
    grows = Grows-refl (index + 1) s.1;
    capped = c;
  }

  pub cells-loop :
      (count index : ℕ) (s s' : BocReader × List ℕ)
      → Capped s.1
      → validate_from usize_max reference_bytes cells offsets count index s ≡ ok s'
      → CellsRead usize_max reference_bytes cells count index s s'
  unfolding validate_from read_rows
  cells-loop zero index s s' c h =
      let same : s ≡ s' = cc in
      subst (CellsRead usize_max reference_bytes cells zero index s) same (no_cells index s c)
  cells-loop (suc count) index (r, hs) s' c h =
      let (s1, turn, rest) =
        >>=-eq-ok (validate_cell usize_max reference_bytes cells offsets index (r, hs)) _ h in
      let cell = cell-read index r hs s1 c turn in
      let later = cells-loop count (index + 1) s1 s' cell.capped rest in
      let kept =
        height_stays (index + 1) index cell.height hs s1.1 (omega arith) cell.grows
          cell.height_at in
      record {
        rows = cell.references ∷ later.rows;
        reads = rw (cell.reads, later.reads) refl;
        counted = ap suc later.counted;
        layered =
            IsLayered-cons index cell.height s'.1 cell.references later.rows
              (height_stays (index + 1 + 1) index cell.height s1.1 s'.1 (omega arith) later.grows
                kept)
              (λ place j is.
                IsHigher-Grows usize_max reference_bytes cells index cell.height (index + 1 + 1) j
                  s1.1 s'.1 later.grows (cell.higher place j is))
              later.layered;
        grows =
            Grows-trans (index + 1) (index + 1 + 1) hs s1.1 s'.1 (omega arith) cell.grows
              later.grows;
        capped = later.capped;
      }
