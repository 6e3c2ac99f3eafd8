-- ===== src/Dwarf2/TableTests.antt =====
-- An address range and a line program of the object of the tests.
use prelink_cross.Base.{ℕ, ◌≡◌, refl, List, [], ◌∷◌, replicate}
use prelink_cross.Bytes.{buf_read_une}
use prelink_cross.Dso.{addr_to_sec, holds_addr, find_sec}
use prelink_cross.Data.{change_from}
use prelink_cross.Dwarf2.{
  ok, failed, read_uleb128, uleb_loop, read_ptr, write_ptr, dwarf2_write_ptr, in_section,
}
use prelink_cross.Dwarf2.Expressions.{uleb_at, skip_numbers, adjust_address}
use prelink_cross.Dwarf2.Lists.{read_pair}
use prelink_cross.Dwarf2.Tables.{
  unit_header, aranges_pairs, aranges_unit, aranges_loop, adjust_dwarf2_aranges, extended_op,
  line_op, line_program, line_unit, line_loop, adjust_dwarf2_line,
}
use prelink_cross.Dwarf2.Keeps.{Ends}
use prelink_cross.Dwarf2.LineEnds.{tables-Ends}
use prelink_cross.Dwarf2.Tests.{debug}

-- A unit with one range.
abbrev aranges : ℕ → List ℕ
aranges high =
    28
    ∷ 0
    ∷ 0
    ∷ 0
    ∷ 2
    ∷ 0
    ∷ 0
    ∷ 0
    ∷ 0
    ∷ 0
    ∷ 4
    ∷ 0
    ∷ 0
    ∷ 0
    ∷ 0
    ∷ 0
    ∷ 0
    ∷ high
    ∷ 0
    ∷ 0
    ∷ 16
    ∷ 0
    ∷ 0
    ∷ 0
    ∷ replicate 8 0

aranges_moved : adjust_dwarf2_aranges debug 0x3000 0x1000 (aranges 0x30) ≡ ok (aranges 0x40)
unfolding adjust_dwarf2_aranges aranges_loop aranges_unit aranges_pairs unit_header read_pair
    read_ptr write_ptr in_section addr_to_sec holds_addr find_sec change_from buf_read_une
    dwarf2_write_ptr
aranges_moved = refl

-- DW_LNE_set_address, DW_LNS_advance_line, DW_LNS_copy and DW_LNE_end_sequence.
abbrev line_numbers : ℕ → List ℕ
line_numbers high =
    35 ∷ 0 ∷ 0 ∷ 0 ∷ 2 ∷ 0 ∷ 16 ∷ 0 ∷ 0 ∷ 0 ∷ 1 ∷ 1 ∷ 0xfb ∷ 14 ∷ 10 ∷ 0 ∷ 1 ∷ 1 ∷ 1 ∷ 1 ∷ 0 ∷ 0 ∷ 0
    ∷ 1 ∷ 0 ∷ 0 ∷ 0 ∷ 5 ∷ 2 ∷ 0x40 ∷ high ∷ 0 ∷ 0 ∷ 3 ∷ 7 ∷ 1 ∷ 0 ∷ 1 ∷ 1 ∷ []

line_numbers_moved :
    adjust_dwarf2_line debug 0x3000 0x1000 (line_numbers 0x30) ≡ ok (line_numbers 0x40)
unfolding adjust_dwarf2_line line_loop line_unit line_program line_op extended_op unit_header
    skip_numbers uleb_at read_uleb128 uleb_loop adjust_address read_ptr write_ptr in_section
    addr_to_sec holds_addr find_sec change_from buf_read_une dwarf2_write_ptr
line_numbers_moved = refl

-- A unit that goes past the section.
line_too_long : adjust_dwarf2_line debug 0x3000 0x1000 (36 ∷ 0 ∷ 0 ∷ 0 ∷ 2 ∷ 0 ∷ []) ≡ failed
unfolding adjust_dwarf2_line line_loop unit_header buf_read_une
line_too_long = refl

tables-Ends_example :
    Ends 0 (line_numbers 0x30) (adjust_dwarf2_aranges debug 0x3000 0x1000 (line_numbers 0x30))
    × Ends 0 (line_numbers 0x30) (adjust_dwarf2_line debug 0x3000 0x1000 (line_numbers 0x30))
tables-Ends_example = tables-Ends debug 0x3000 0x1000 (line_numbers 0x30)
