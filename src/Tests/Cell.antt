-- ===== src/Tests/Cell.antt =====
-- Serialized cells, and the validator's theorems at them (crates/ton-connect-core/src/cell_boc.rs).
use wallet_engine.Base.{ℕ, ◌+◌, ◌^◌, ◌-◌, ◌≡◌, refl, none, List, [], ◌∷◌, ◌++◌}
use wallet_engine.Base.Results.{ok, err}
use wallet_engine.Cell.Reader.{reader, is_empty, byte, take_bytes, unsigned, big_endian, get_range}
use wallet_engine.Cell.Exotic.{bit}
use wallet_engine.Cell.Boc.{
  invalid_boc, lacks_tag, is_exotic, stores_hashes, child_height, data_length, cell_descriptors,
  skip_hashes, cell_data, validate_references, offset_differs, validate_cell, validate_from, zeros,
  validate_cells,
}
use wallet_engine.Cell.Boc.Accepted.{IsAccepted, validate_cells-IsAccepted}
use wallet_engine.Cell.Envelope.{
  read_flags, read_counts, read_header, read_offsets, read_index, check_crc,
  validate_single_root_boc,
}
use wallet_engine.Cell.Envelope.SingleRoot.{IsSingleRoot, validate_single_root_boc-IsSingleRoot}

abbrev usize_max : ℕ
usize_max = 2 ^ 64 - 1

-- A cell with a reference to an empty cell.
abbrev two_cells : List ℕ
two_cells = 1 ∷ 0 ∷ 1 ∷ 0 ∷ 0 ∷ []

abbrev header : List ℕ
header = 0xb5 ∷ 0xee ∷ 0x9c ∷ 0x72 ∷ 1 ∷ 1 ∷ 2 ∷ 1 ∷ 0 ∷ 5 ∷ 0 ∷ []

abbrev no_checksum : List ℕ → ℕ
no_checksum bytes = 0

cells_pass : validate_cells usize_max two_cells 2 1 none ≡ ok tt
unfolding validate_cells validate_from validate_cell cell_descriptors skip_hashes cell_data
    validate_references offset_differs zeros reader is_empty byte take_bytes unsigned big_endian
    get_range lacks_tag is_exotic stores_hashes child_height data_length bit
cells_pass = refl

boc_passes : validate_single_root_boc usize_max no_checksum (header ++ two_cells) ≡ ok tt
unfolding validate_single_root_boc read_flags read_counts read_header read_index check_crc
    validate_cells validate_from validate_cell cell_descriptors skip_hashes cell_data
    validate_references offset_differs zeros reader is_empty byte take_bytes unsigned big_endian
    get_range lacks_tag is_exotic stores_hashes child_height data_length bit
boc_passes = refl

-- The sum of the bytes, as a checksum.
abbrev byte_sum : List ℕ → ℕ
byte_sum [] = 0
byte_sum (b ∷ bs) = b + byte_sum bs

-- A header that announces the index, which follows it, and the checksum.
abbrev indexed_header : List ℕ
indexed_header = 0xb5 ∷ 0xee ∷ 0x9c ∷ 0x72 ∷ 0xc1 ∷ 1 ∷ 2 ∷ 1 ∷ 0 ∷ 5 ∷ 0 ∷ 3 ∷ 5 ∷ []

abbrev stored_sum : List ℕ
stored_sum = 133 ∷ 3 ∷ 0 ∷ 0 ∷ []

indexed_passes :
    validate_single_root_boc usize_max byte_sum (indexed_header ++ two_cells ++ stored_sum) ≡ ok tt
unfolding validate_single_root_boc read_flags read_counts read_header read_offsets read_index
    check_crc validate_cells validate_from validate_cell cell_descriptors skip_hashes cell_data
    validate_references offset_differs zeros reader is_empty byte take_bytes unsigned big_endian
    get_range lacks_tag is_exotic stores_hashes child_height data_length bit
indexed_passes = refl

-- A wrong checksum is refused.
wrong_sum :
    validate_single_root_boc usize_max byte_sum
      (indexed_header ++ two_cells ++ (132 ∷ 3 ∷ 0 ∷ 0 ∷ []))
    ≡ err invalid_boc
unfolding validate_single_root_boc read_flags read_counts read_header read_offsets read_index
    check_crc validate_cells validate_from validate_cell cell_descriptors skip_hashes cell_data
    validate_references offset_differs zeros reader is_empty byte take_bytes unsigned big_endian
    get_range lacks_tag is_exotic stores_hashes child_height data_length bit
wrong_sum = refl

-- A reference to the cell itself is refused.
self_reference : validate_cells usize_max (1 ∷ 0 ∷ 0 ∷ 0 ∷ 0 ∷ []) 2 1 none ≡ err invalid_boc
unfolding validate_cells validate_from validate_cell cell_descriptors skip_hashes cell_data
    validate_references offset_differs zeros reader is_empty byte take_bytes unsigned big_endian
    get_range lacks_tag is_exotic stores_hashes child_height data_length bit
self_reference = refl

validate_cells-IsAccepted_example : IsAccepted usize_max two_cells 2 1
validate_cells-IsAccepted_example =
    validate_cells-IsAccepted usize_max two_cells 2 1 none cells_pass

validate_single_root_boc-IsSingleRoot_example :
    IsSingleRoot usize_max byte_sum (indexed_header ++ two_cells ++ stored_sum)
validate_single_root_boc-IsSingleRoot_example =
    validate_single_root_boc-IsSingleRoot usize_max byte_sum
      (indexed_header ++ two_cells ++ stored_sum) indexed_passes
