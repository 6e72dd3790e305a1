-- ===== src/Cell/Boc/Accepted.antt =====
-- What the validator of crates/ton-connect-core/src/cell_boc.rs promises the parser that runs after it.
use wallet_engine.Base.{
  ℕ, zero, suc, ◌+◌, ◌≤◌, ◌<◌, true, ◌≡◌, subst, Option, some, List, arith, get_elem?, length,
}
use wallet_engine.Base.Results.{ok, >>=-eq-ok, guard->>}
use wallet_engine.Cell.Reader.{BocReader, reader, is_empty}
use wallet_engine.Cell.Boc.{validate_from, validate_cells, zeros}
use wallet_engine.Cell.Boc.Rows.{read_rows, Refers, Chain, here, follow}
use wallet_engine.Cell.Boc.Heights.{Capped, IsHigher}
use wallet_engine.Cell.Boc.Depth.{IsLayered, cells-loop}

zeros-Capped : (n : ℕ) → Capped (zeros n)
unfolding zeros
zeros-Capped zero j v h = absurd cc
zeros-Capped (suc n) zero v h = let is : 0 ≡ v = cc in omega (arith, is)
zeros-Capped (suc n) (suc j) v h = zeros-Capped n j v h

layered-Refers :
    (cells : ℕ) (hs : List ℕ) (rows : List (List ℕ)) (i j : ℕ)
    → IsLayered cells 0 hs rows
    → Refers rows i j
    → (h : ℕ) × (get_elem? hs i ≡ some h) × IsHigher cells i h hs j
unfolding IsLayered
layered-Refers cells hs rows i j l r =
    let plus : 0 + i ≡ i = omega arith in
    subst (λ m. (h : ℕ) × (get_elem? hs m ≡ some h) × IsHigher cells m h hs j) plus
      (l i j r.row r.place r.row_at r.reference_at)

Chain-height :
    (cells : ℕ) (hs : List ℕ) (rows : List (List ℕ)) (i k n h : ℕ)
    → IsLayered cells 0 hs rows
    → Chain rows i k n
    → get_elem? hs i ≡ some h
    → (g : ℕ) × (get_elem? hs k ≡ some g) × (h + n ≤ g)
Chain-height cells hs rows i k n h l here at = (h, at, omega arith)
Chain-height cells hs rows i k n h l (follow {j = j} {n = m} r rest) at =
    let (h', at', (forward, inside, (v, at_j, up))) = layered-Refers cells hs rows i j l r in
    let same : h' ≡ h = cc in
    let (g, at_k, sum) = Chain-height cells hs rows j k m v l rest at_j in
    (g, at_k, omega (arith, same))

Chain-bounded :
    (cells : ℕ) (hs : List ℕ) (rows : List (List ℕ)) (i k n : ℕ)
    → IsLayered cells 0 hs rows
    → Capped hs
    → Chain rows i k n
    → n ≤ 1024
Chain-bounded cells hs rows i k n l c here = omega arith
Chain-bounded cells hs rows i k n l c (follow {j = j} r rest) =
    let (h, at, _) = layered-Refers cells hs rows i j l r in
    let (g, at_k, sum) = Chain-height cells hs rows i k n h l (follow r rest) at in
    omega (arith, c k g at_k)

-- The references of the cells that a plain decoder reads are those of a forest that grows upwards.
pub record IsAccepted (usize_max : ℕ) (bytes : List ℕ) (cells reference_bytes : ℕ) : Type 0 where
  pub rows : List (List ℕ)
  pub rest : BocReader
  pub reads : read_rows usize_max reference_bytes cells (reader bytes) ≡ ok (rows, rest)
  pub consumed : is_empty rest ≡ true
  pub counted : length rows ≡ cells
  pub forward : (i j : ℕ) → Refers rows i j → (i < j) × (j < cells)
  pub shallow : (i k n : ℕ) → Chain rows i k n → n ≤ 1024

-- Cells that the validator accepts are decoded to the last byte into as many cells as the header says;
-- each of their references points forward to one of them, and no chain of references is longer than 1024.
pub validate_cells-IsAccepted :
    (usize_max : ℕ) (bytes : List ℕ) (cells reference_bytes : ℕ) (offsets : Option (List ℕ))
    → validate_cells usize_max bytes cells reference_bytes offsets ≡ ok tt
    → IsAccepted usize_max bytes cells reference_bytes
unfolding validate_cells
validate_cells-IsAccepted usize_max bytes cells reference_bytes offsets h =
    let ((r, hs), loop, h1) =
      >>=-eq-ok
        (validate_from usize_max reference_bytes cells offsets cells 0 (reader bytes, zeros cells))
        _ h in
    let (empty, _) = guard->> (is_empty r) _ _ h1 in
    let read =
      cells-loop usize_max reference_bytes cells offsets cells 0 (reader bytes, zeros cells) (r, hs)
        (zeros-Capped cells) loop in
    record {
      rows = read.rows;
      rest = r;
      reads = read.reads;
      consumed = empty;
      counted = read.counted;
      forward = λ i j e.
          let (_, _, (forward, inside, _)) = layered-Refers cells hs read.rows i j read.layered e in
          (forward, inside);
      shallow =
          λ i k n chain. Chain-bounded cells hs read.rows i k n read.layered read.capped chain;
    }
