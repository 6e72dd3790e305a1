-- ===== src/Cell/Boc/Rows.antt =====
-- A plain decoder of the references of serialized cells, which checks nothing but that the bytes are
-- there. It describes the format that `validate_cells` of crates/ton-connect-core/src/cell_boc.rs checks.
use wallet_engine.Base.{ℕ, zero, suc, ◌%◌, ◌≡◌, some, List, [], ◌∷◌, get_elem?}
use wallet_engine.Base.Results.{Result, ok, ok_or, ◌>>=◌}
use wallet_engine.Cell.Reader.{BocReader, byte, take_bytes, unsigned}
use wallet_engine.Cell.Boc.{CellBocError, invalid_boc, data_length, skip_hashes}

module _ (usize_max : ℕ) where
  unfoldable pub read_references : ℕ → ℕ → BocReader → Result CellBocError (List ℕ × BocReader)
  read_references reference_bytes zero r = ok ([], r)
  read_references reference_bytes (suc count) r = do
    (reference, r1) ← ok_or (unsigned usize_max r reference_bytes) invalid_boc
    (references, r2) ← read_references reference_bytes count r1
    ok (reference ∷ references, r2)

  -- One cell: descriptors, stored hashes, data and references.
  unfoldable pub read_row : ℕ → BocReader → Result CellBocError (List ℕ × BocReader)
  unfolding read_references
  read_row reference_bytes r = do
    (descriptor, r1) ← ok_or (byte usize_max r) invalid_boc
    (bits_descriptor, r2) ← ok_or (byte usize_max r1) invalid_boc
    r3 ← skip_hashes usize_max descriptor r2
    (_, r4) ← ok_or (take_bytes usize_max r3 (data_length bits_descriptor)) invalid_boc
    read_references reference_bytes (descriptor % 8) r4

  unfoldable pub read_rows : ℕ → ℕ → BocReader → Result CellBocError (List (List ℕ) × BocReader)
  unfolding read_row
  read_rows reference_bytes zero r = ok ([], r)
  read_rows reference_bytes (suc count) r = do
    (row, r1) ← read_row reference_bytes r
    (rows, r2) ← read_rows reference_bytes count r1
    ok (row ∷ rows, r2)

-- Cell `i` of `rows` refers to cell `j`.
pub record Refers (rows : List (List ℕ)) (i j : ℕ) : Type 0 where
  pub row : List ℕ
  pub place : ℕ
  pub row_at : get_elem? rows i ≡ some row
  pub reference_at : get_elem? row place ≡ some j

-- A chain of `n` references from one cell to another.
pub data Chain (rows : List (List ℕ)) : ℕ → ℕ → ℕ → Type 0 where
  here : {i : ℕ} → Chain rows i i 0
  follow : {i j k n : ℕ} → Refers rows i j → Chain rows j k n → Chain rows i k (suc n)
