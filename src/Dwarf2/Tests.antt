-- ===== src/Dwarf2/Tests.antt =====
-- Debugging information of a small object, and the theorems at concrete inputs.
use prelink_cross.Base.{
  ℕ, ◌+◌, ◌^◌, ◌≤◌, ◌<◌, ◌≡◌, refl, ◌⊎◌, inl, inr, false, none, some, List, [], ◌∷◌, ◌++◌, arith,
  length, replicate, ◌==◌, if◌then◌else◌,
}
use prelink_cross.Bytes.{lsb, buf_read_une}
use prelink_cross.Dso.{Dso, Shdr, addr_to_sec, holds_addr, find_sec}
use prelink_cross.Data.{change_from}
use prelink_cross.Dwarf2.{
  Debug, CuData, ok, uint_max, read_uleb128, uleb_loop, read_ptr, write_ptr, dwarf2_write_ptr,
  in_section,
}
use prelink_cross.Dwarf2.Abbrev.{
  AbbrevTag, ok, duplicate, known_form, read_abbrev, read_tags, read_tag, read_attrs, has_entry,
}
use prelink_cross.Dwarf2.Expressions.{
  operand_of, uleb_at, skip_numbers, skip_operand, adjust_address, adjust_operand,
  adjust_location_list,
}
use prelink_cross.Dwarf2.Lists.{
  read_pair, adjust_dwarf2_loc, loc_loop, loc_entry, loc_expression, adjust_dwarf2_ranges,
  ranges_loop, ranges_entry, shift_range,
}
use prelink_cross.Dwarf2.Uleb.{leb128, read_uleb128-bounds}
use prelink_cross.Dwarf2.Keeps.{Ends}
use prelink_cross.Dwarf2.ListEnds.{adjust_dwarf2_loc-Ends}
use prelink_cross.Dwarf2.Places.{ptr_bytes, IsNumber}
use prelink_cross.Dwarf2.Rounds.{AreNumbers}
use prelink_cross.Dwarf2.Meaning.{
  Expression, done, addr, entry, other, size, print, adjusted, adjust_location_list-print,
}
use prelink_cross.Dwarf2.ReadBack.{print_tags, print_attrs, read_abbrev-print_tags}

-- 624485, the example of the DWARF standard, with a byte behind it.
abbrev standard_number : List ℕ
standard_number = 0xe5 ∷ 0x8e ∷ 0x26 ∷ 7 ∷ []

standard_number_read : read_uleb128 standard_number ≡ some (624485, 7 ∷ [])
unfolding read_uleb128 uleb_loop
standard_number_read = refl

-- Five bytes are UINT_MAX, whatever number they stand for.
five_bytes : read_uleb128 (0x80 ∷ 0x80 ∷ 0x80 ∷ 0x80 ∷ 1 ∷ []) ≡ some (uint_max, [])
unfolding read_uleb128 uleb_loop
five_bytes = refl

read_uleb128-bounds_example :
    (v : ℕ) × (front : List ℕ) × (rest : List ℕ) × (read_uleb128 standard_number ≡ some (v, rest))
    × (standard_number ≡ front ++ rest)
    × (1 ≤ length front)
    × ((length front ≤ 4) × (v < 2 ^ 28) ⊎ (5 ≤ length front) × (v ≡ uint_max))
read_uleb128-bounds_example =
    read_uleb128-bounds standard_number
      (omega arith, (omega arith, (omega arith, (omega arith, tt)))) (inr (inr (inl (omega arith))))

-- A unit with a name and an address, and a variable.
-- The first tag has children, and the second has none.
abbrev has_children : ℕ → ℕ
has_children number = if number == 1 then 1 else 0

abbrev two_tags : List AbbrevTag
two_tags =
    record {
      entry = 1;
      tag = 0x11;
      attrs = record { attr = 3; form = 8 } ∷ record { attr = 0x11; form = 1 } ∷ [];
    }
    ∷ record { entry = 200; tag = 0x34; attrs = record { attr = 2; form = 0x18 } ∷ [] }
    ∷ []

printed :
    print_tags has_children two_tags []
    ≡ 1 ∷ 0x11 ∷ 1 ∷ 3 ∷ 8 ∷ 0x11 ∷ 1 ∷ 0 ∷ 0 ∷ 0xc8 ∷ 1 ∷ 0x34 ∷ 0 ∷ 2 ∷ 0x18 ∷ 0 ∷ 0 ∷ 0 ∷ []
unfolding print_tags print_attrs leb128
printed = refl

read_abbrev-print_tags_example : read_abbrev (print_tags has_children two_tags []) ≡ ok two_tags
unfolding known_form has_entry
read_abbrev-print_tags_example =
    read_abbrev-print_tags has_children two_tags []
      (
        (
          omega arith,
          omega arith,
          omega arith,
          (
            (omega arith, omega arith, omega arith, refl),
            ((omega arith, omega arith, omega arith, refl), tt),
          ),
        ),
        (
          (
            omega arith,
            omega arith,
            omega arith,
            ((omega arith, omega arith, omega arith, refl), tt),
          ),
          tt,
        ),
      )
      (refl, (refl, tt))

same_entry : read_abbrev (1 ∷ 0x11 ∷ 1 ∷ 0 ∷ 0 ∷ 1 ∷ 0x34 ∷ 1 ∷ 0 ∷ 0 ∷ 0 ∷ []) ≡ duplicate
unfolding read_abbrev read_tags read_tag read_attrs has_entry read_uleb128 uleb_loop
same_entry = refl

abbrev bss : Shdr
bss = record {
  name = [];
  sh_type = 1;
  sh_flags = 3;
  sh_addr = 0x3000;
  sh_offset = 0x3000;
  sh_size = 256;
  sh_addralign = 4;
}

abbrev pub object : Dso
object = record {
  elf64 = false;
  e_data = lsb;
  e_type = 3;
  e_machine = 3;
  e_entry = 0;
  phdr = [];
  shdr = bss ∷ [];
  scn = [] ∷ [];
  lastscn = 0;
  base = 0x3000;
  end = 0x3100;
  adjust = [];
  dirty = [];
}

-- From 0x10 to 0x20 the value is at the address, with DW_OP_deref and two LEB128 numbers behind it.
abbrev locations : ℕ → List ℕ
locations high =
    0x10
    ∷ 0
    ∷ 0
    ∷ 0
    ∷ 0x20
    ∷ 0
    ∷ 0
    ∷ 0
    ∷ 9
    ∷ 0
    ∷ 3
    ∷ 0x40
    ∷ high
    ∷ 0
    ∷ 0
    ∷ 6
    ∷ 0x92
    ∷ 5
    ∷ 0x7f
    ∷ replicate 8 0

abbrev pub debug : Debug
debug = record { dso = object; wide = false }

abbrev unit : CuData
unit = record { cu_entry_pc = none; cu_low_pc = none; cu_version = 4 }

locations_moved :
    adjust_dwarf2_loc debug 0x3000 0x1000 (some unit) (some (locations 0x30)) 0
    ≡ ok (locations 0x40)
unfolding adjust_dwarf2_loc loc_loop loc_entry loc_expression read_pair read_ptr write_ptr
    adjust_location_list adjust_operand adjust_address skip_operand skip_numbers operand_of uleb_at
    read_uleb128 uleb_loop in_section addr_to_sec holds_addr find_sec change_from buf_read_une
    dwarf2_write_ptr
locations_moved = refl

adjust_dwarf2_loc-Ends_example :
    Ends 0
      (locations 0x30)
      (adjust_dwarf2_loc debug 0x3000 0x1000 (some unit) (some (locations 0x30)) 0)
adjust_dwarf2_loc-Ends_example =
    adjust_dwarf2_loc-Ends debug 0x3000 0x1000 (some unit) (locations 0x30) 0

-- A range within the section.
ranges_moved :
    adjust_dwarf2_ranges debug 0x3000 0x1000
      (some (0 ∷ 0x30 ∷ 0 ∷ 0 ∷ 8 ∷ 0x30 ∷ 0 ∷ 0 ∷ replicate 8 0))
      0
      0
    ≡ ok (0 ∷ 0x40 ∷ 0 ∷ 0 ∷ 8 ∷ 0x40 ∷ 0 ∷ 0 ∷ replicate 8 0)
unfolding adjust_dwarf2_ranges ranges_loop ranges_entry shift_range read_pair read_ptr write_ptr
    in_section addr_to_sec holds_addr find_sec change_from buf_read_une dwarf2_write_ptr
ranges_moved = refl

-- The address of a variable, its offset in a block of its own, and the value that a register had.
abbrev operations : Expression
operations =
    addr 0x3040
      (other 0x91 (0xc0 ∷ 0 ∷ []) (entry (addr 0x100 (other 0x50 [] done)) (other 0x9f [] done)))

operations_bytes :
    print debug none operations (7 ∷ [])
    ≡ 3 ∷ 0x40 ∷ 0x30 ∷ 0 ∷ 0 ∷ 0x91 ∷ 0xc0 ∷ 0 ∷ 0xf3 ∷ 6 ∷ 3 ∷ 0 ∷ 1 ∷ 0 ∷ 0 ∷ 0x50 ∷ 0x9f ∷ 7
      ∷ []
unfolding ptr_bytes leb128
operations_bytes = refl

adjust_location_list-print_example :
    adjust_location_list debug none 0x3000 0x1000
      (size debug none operations)
      (9 ∷ 9 ∷ print debug none operations (7 ∷ []))
      2
      (2 + size debug none operations)
    ≡ ok (9 ∷ 9 ∷ print debug none (adjusted debug none 0x3000 0x1000 operations) (7 ∷ []))
unfolding operand_of AreNumbers IsNumber leb128
adjust_location_list-print_example =
    adjust_location_list-print debug none 0x3000 0x1000 operations (9 ∷ 9 ∷ []) (7 ∷ []) (
      omega arith,
      (
        (0xc0 ∷ 0 ∷ [], [], inr (omega arith, omega arith, inl (omega arith, refl)), refl, refl),
        (omega arith, (omega arith, (refl, tt)), (refl, tt)),
      ),
    )
