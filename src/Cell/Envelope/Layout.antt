-- ===== src/Cell/Envelope/Layout.antt =====
-- The layout of a BoC envelope, described by the places of its bytes
-- (crates/ton-connect-core/src/cell_boc.rs, `validate_single_root_boc`).
use wallet_engine.Base.{
  ℕ, suc, ◌+◌, ◌*◌, ◌/◌, ◌%◌, ◌≤◌, ◌<◌, Bool, true, false, ◌==◌, ◌≡◌, some, List, [], ◌∷◌, length,
  get_elem?,
}
use wallet_engine.Base.Words.{within}
use wallet_engine.Base.Options.{some->>=}
use wallet_engine.Cell.Reader.{BocReader, byte, take_bytes, unsigned, get_range, big_endian}
use wallet_engine.Cell.Boc.Depth.{within_is}
use wallet_engine.Cell.Envelope.{BocHeader, generic_boc_magic, little_endian}

-- The number whose first digits in base 256 are `value`, and whose last ones are the bytes.
pub number : ℕ → List ℕ → ℕ
number value [] = value
number value (b ∷ bs) = number (value * 256 + b) bs

-- `n` bytes from the position on are the number.
pub record IsNumberAt (bytes : List ℕ) (position n v : ℕ) : Type 0 where
  pub digits : List ℕ
  pub present : get_range bytes position (position + n) ≡ some digits
  pub is : number 0 digits ≡ v

-- The header, whose fields have their sizes from the flags and the byte after them.
pub record IsHeader (bytes : List ℕ) (h : BocHeader) : Type 0 where
  pub flags : ℕ
  pub magic : get_range bytes 0 4 ≡ some generic_boc_magic
  pub flags_at : get_elem? bytes 4 ≡ some flags
  pub reserved : flags / 8 % 4 ≡ 0
  pub index_flag : h.has_index ≡ (flags / 128 % 2 == 1)
  pub crc_flag : h.has_crc32c ≡ (flags / 64 % 2 == 1)
  pub reference_size : h.reference_bytes ≡ flags % 8
  pub reference_bounds : (1 ≤ h.reference_bytes) × (h.reference_bytes ≤ 4)
  pub offset_at : get_elem? bytes 5 ≡ some h.offset_bytes
  pub offset_bounds : (1 ≤ h.offset_bytes) × (h.offset_bytes ≤ 8)
  pub cells_at : IsNumberAt bytes 6 h.reference_bytes h.cells
  pub one_root : IsNumberAt bytes (6 + h.reference_bytes) h.reference_bytes 1
  pub none_absent : IsNumberAt bytes (6 + h.reference_bytes + h.reference_bytes) h.reference_bytes 0
  pub cell_bytes_at :
      IsNumberAt bytes
        (6 + h.reference_bytes + h.reference_bytes + h.reference_bytes)
        h.offset_bytes
        h.cell_bytes
  pub root_at :
      IsNumberAt bytes
        (6 + h.reference_bytes + h.reference_bytes + h.reference_bytes + h.offset_bytes)
        h.reference_bytes
        h.root
  pub cells_backed : h.cells * 2 ≤ h.cell_bytes
  pub root_inside : h.root < h.cells

abbrev pub header_size : BocHeader → ℕ
header_size h =
    6 + h.reference_bytes + h.reference_bytes + h.reference_bytes + h.offset_bytes
    + h.reference_bytes

-- From a position to another, as many offsets as the count, each above the one before it, up to the
-- size of the cells.
pub data IsOffsets (bytes : List ℕ) (offset_bytes cell_bytes : ℕ) : ℕ → ℕ → ℕ → ℕ → Type 0 where
  no_more : {position : ℕ} → IsOffsets bytes offset_bytes cell_bytes position cell_bytes 0 position
  one_more :
      {position previous offset count last : ℕ}
      → IsNumberAt bytes position offset_bytes offset
      → previous < offset
      → IsOffsets bytes offset_bytes cell_bytes (position + offset_bytes) offset count last
      → IsOffsets bytes offset_bytes cell_bytes position previous (suc count) last

-- The index between two positions, or nothing if there is none.
pub data IsIndex (bytes : List ℕ) (h : BocHeader) (position : ℕ) : Bool → ℕ → Type 0 where
  no_index : IsIndex bytes h position false position
  with_index :
      {last : ℕ}
      → IsOffsets bytes h.offset_bytes h.cell_bytes position 0 h.cells last
      → IsIndex bytes h position true last

-- What follows the cells: nothing, or the checksum of all the bytes before it and then nothing.
pub data IsChecked (checksum : List ℕ → ℕ) (bytes : List ℕ) (end : ℕ) : Bool → Type 0 where
  unchecked : length bytes ≡ end → IsChecked checksum bytes end false
  checked :
      {covered stored : List ℕ}
      → get_range bytes 0 end ≡ some covered
      → get_range bytes end (end + 4) ≡ some stored
      → little_endian stored ≡ checksum covered
      → length bytes ≡ end + 4
      → IsChecked checksum bytes end true

-- A reader of these bytes that stands at the position.
abbrev pub IsAt : List ℕ → ℕ → BocReader → Type 0
IsAt bytes position r = (r.bytes ≡ bytes) × (r.position ≡ position)

module _ (usize_max : ℕ) where
  big_endian-number :
      (value : ℕ) (bs : List ℕ) (v : ℕ)
      → big_endian usize_max value bs ≡ some v
      → number value bs ≡ v
  unfolding big_endian number
  big_endian-number value [] v h = cc
  big_endian-number value (b ∷ bs) v h =
      let (shifted, is_shifted, h1) = some->>= (within usize_max (value * 256)) _ h in
      let (next, is_next, h2) = some->>= (within usize_max (shifted + b)) _ h1 in
      let first : value * 256 ≡ shifted = within_is usize_max (value * 256) shifted is_shifted in
      let second : shifted + b ≡ next = within_is usize_max (shifted + b) next is_next in
      rw (first, second) (big_endian-number next bs v h2)

  module _ (bytes : List ℕ) where
    pub byte-IsAt :
        (position : ℕ) (r r' : BocReader) (v : ℕ)
        → IsAt bytes position r
        → byte usize_max r ≡ some (v, r')
        → IsAt bytes (position + 1) r' × (get_elem? bytes position ≡ some v)
    unfolding byte
    byte-IsAt position r r' v (same, at) h =
        let (x, found, h1) = some->>= (get_elem? r.bytes r.position) _ h in
        let (next, small, h2) = some->>= (within usize_max (r.position + 1)) _ h1 in
        let moved : r.position + 1 ≡ next = within_is usize_max (r.position + 1) next small in
        ((cc, rw (← at) cc), rw (← same, ← at) cc)

    pub take-IsAt :
        (position : ℕ) (r r' : BocReader) (n : ℕ) (xs : List ℕ)
        → IsAt bytes position r
        → take_bytes usize_max r n ≡ some (xs, r')
        → IsAt bytes (position + n) r' × (get_range bytes position (position + n) ≡ some xs)
    unfolding take_bytes
    take-IsAt position r r' n xs (same, at) h =
        let (end, small, h1) = some->>= (within usize_max (r.position + n)) _ h in
        let (ys, range, h2) = some->>= (get_range r.bytes r.position end) _ h1 in
        let moved : r.position + n ≡ end = within_is usize_max (r.position + n) end small in
        ((cc, rw (← at) cc), rw (← same, ← at, moved) cc)

    pub unsigned-IsAt :
        (position : ℕ) (r r' : BocReader) (n v : ℕ)
        → IsAt bytes position r
        → unsigned usize_max r n ≡ some (v, r')
        → IsAt bytes (position + n) r' × IsNumberAt bytes position n v
    unfolding unsigned
    unsigned-IsAt position r r' n v at h =
        let ((xs, r1), read, h1) = some->>= (take_bytes usize_max r n) _ h in
        let (w, folded, h2) = some->>= (big_endian usize_max 0 xs) _ h1 in
        let ((same, moved), range) = take-IsAt position r r1 n xs at read in
        let ends : r1 ≡ r' = cc in
        let value : w ≡ v = cc in
        (
          rw (← ends) (same, moved),
          record {
            digits = xs;
            present = range;
            is = rw (← value) (big_endian-number 0 xs w folded);
          },
        )
