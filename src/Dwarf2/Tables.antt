-- ===== src/Dwarf2/Tables.antt =====
-- `adjust_dwarf2_aranges` and `adjust_dwarf2_line`: the addresses in .debug_aranges and in the
-- programs of .debug_line. Both functions flag .debug_line as dirty when they return 0.
use prelink_cross.Base.{
  ℕ, zero, suc, ◌+◌, ◌-◌, ◌*◌, ◌^◌, ◌&&◌, ◌||◌, not, Option, none, some, List, length, drop,
  get_elem?, ltb, leb, ◌==◌, if◌then◌else◌, add64, u32,
}
use prelink_cross.Bytes.{w16, w32, buf_read_une}
use prelink_cross.Dwarf2.{
  Debug, Walk, ok, failed, undefined_, stuck, ◌then_◌, of_option, ptr_size, write_ptr, moves,
  uint_max,
}
use prelink_cross.Dwarf2.Expressions.{uleb_at, skip_numbers, adjust_address}
use prelink_cross.Dwarf2.Lists.{read_pair}

abbrev pub read_16 : Debug → List ℕ → ℕ → Option ℕ
read_16 d buf ptr = buf_read_une d.dso.e_data w16 (drop ptr buf)

abbrev pub read_32 : Debug → List ℕ → ℕ → Option ℕ
read_32 d buf ptr = buf_read_une d.dso.e_data w32 (drop ptr buf)

-- The start of a unit: its length and version. The result is its end and its version; 64-bit DWARF
-- and a unit that goes past the section are errors.
unfoldable pub unit_header : Debug → List ℕ → ℕ → Walk (ℕ × ℕ)
unit_header d buf ptr = elim (read_32 d buf ptr) [
  | none ↦ undefined_
  | some len ↦
      if len == 0xffffffff || ltb (length buf) (ptr + 4 + len)
      then failed
      else elim (read_16 d buf (ptr + 4)) [
        | none ↦ undefined_
        | some version ↦ ok (ptr + 4 + len, version)
      ]
]

-- `assert (ptr == endcu)`
abbrev pub at_end : List ℕ → ℕ → ℕ → Walk (List ℕ)
at_end buf ptr endcu = if ptr == endcu then ok buf else undefined_

-- `ptr += len - 1`, where `len` is an `unsigned int`.
abbrev pub skip_rest : ℕ → ℕ → ℕ
skip_rest ptr len = ptr + u32 (len + (2 ^ 32 - 1))

module _ (d : Debug) (start adjust : ℕ) where
  -- The address of a pair, at `ptr`.
  abbrev pub adjust_first : List ℕ → ℕ → ℕ → Option (List ℕ)
  adjust_first buf ptr addr =
      if moves d start addr then write_ptr d buf ptr (add64 addr adjust) else some buf

  -- The pairs of a unit, up to one of zeros; the `assert` is that they end at the end of the unit.
  unfoldable pub aranges_pairs : ℕ → List ℕ → ℕ → ℕ → Walk (List ℕ)
  aranges_pairs zero buf ptr endcu = if ltb ptr endcu then stuck else at_end buf ptr endcu
  aranges_pairs (suc fuel) buf ptr endcu =
      if ltb ptr endcu
      then elim (read_pair d buf ptr) [
        | none ↦ undefined_
        | some (addr, len) ↦
            if addr == 0 && len == 0
            then at_end buf (ptr + 2 * ptr_size d) endcu
            else of_option (adjust_first buf ptr addr)
              then_ (λ buf'. aranges_pairs fuel buf' (ptr + 2 * ptr_size d) endcu)
      ]
      else at_end buf ptr endcu

  -- A unit, from behind its length and version on.
  unfoldable pub aranges_unit : List ℕ → ℕ → ℕ → ℕ → Walk (List ℕ)
  aranges_unit buf ptr endcu version =
      if not (version == 2) then failed else elim (get_elem? buf (ptr + 10)) [
        | none ↦ undefined_
        | some size ↦ if not (size == ptr_size d) then failed else elim (get_elem? buf (ptr + 11)) [
          | none ↦ undefined_
          | some segment ↦
              if not (segment == 0) then failed else aranges_pairs (length buf) buf (ptr + 16) endcu
        ]
      ]

  unfoldable pub aranges_loop : ℕ → List ℕ → ℕ → Walk (List ℕ)
  aranges_loop zero buf ptr = if ltb ptr (length buf) then stuck else ok buf
  aranges_loop (suc fuel) buf ptr =
      if ltb ptr (length buf)
      then unit_header d buf ptr then_ (λ (endcu, version).
        aranges_unit buf ptr endcu version then_ (λ buf'. aranges_loop fuel buf' endcu))
      else ok buf

  unfoldable pub adjust_dwarf2_aranges : List ℕ → Walk (List ℕ)
  adjust_dwarf2_aranges buf = aranges_loop (length buf) buf 0

  -- An extended operation, from its length on: DW_LNE_set_address, or one that is passed over. The
  -- result is the section and the offset behind.
  unfoldable pub extended_op : List ℕ → ℕ → Walk (List ℕ × ℕ)
  extended_op buf ptr = elim (uleb_at buf ptr) [
    | none ↦ undefined_
    | some (len, ptr1) ↦ if len == uint_max then undefined_ else elim (get_elem? buf ptr1) [
      | none ↦ undefined_
      | some op ↦
          if op == 2
          then of_option (adjust_address d start adjust buf (ptr1 + 1))
            then_ (λ buf'. ok (buf', ptr1 + 1 + ptr_size d))
          else ok (buf, skip_rest (ptr1 + 1) len)
    ]
  ]

  -- One operation, from behind its opcode on: `opcode_base`, and the offset of `opcode_lengths`.
  unfoldable pub line_op : ℕ → ℕ → ℕ → List ℕ → ℕ → Walk (List ℕ × ℕ)
  line_op base lengths op buf ptr =
      if leb base op
      then ok (buf, ptr)
      else if op == 0
      then extended_op buf ptr
      else if op == 9
      then ok (buf, ptr + 2)
      else elim (get_elem? buf (lengths + op)) [
        | none ↦ undefined_
        | some n ↦ of_option (skip_numbers n buf ptr) then_ (λ ptr'. ok (buf, ptr'))
      ]

  -- The operations of a unit; the result is the section and the offset behind the last one, which
  -- may be past the end of the unit.
  unfoldable pub line_program : ℕ → ℕ → ℕ → List ℕ → ℕ → ℕ → Walk (List ℕ × ℕ)
  line_program zero base lengths buf ptr endcu = if ltb ptr endcu then stuck else ok (buf, ptr)
  line_program (suc fuel) base lengths buf ptr endcu =
      if ltb ptr endcu
      then elim (get_elem? buf ptr) [
        | none ↦ undefined_
        | some op ↦
            line_op base lengths op buf (ptr + 1)
            then_ (λ (buf', ptr'). line_program fuel base lengths buf' ptr' endcu)
      ]
      else ok (buf, ptr)

  -- A unit, from its header on; the tables behind `opcode_base` are one byte further from version 4
  -- on.
  unfoldable pub line_unit : List ℕ → ℕ → ℕ → ℕ → Walk (List ℕ × ℕ)
  line_unit buf ptr endcu version =
      let at = ptr + 14 + (if leb 4 version then 1 else 0) in
      if not (version == 2 || version == 3 || version == 4)
      then failed
      else elim (read_32 d buf (ptr + 6)) [
        | none ↦ undefined_
        | some len ↦ if ltb endcu (ptr + 10 + len) then failed else elim (get_elem? buf at) [
          | none ↦ undefined_
          | some base ↦ line_program (length buf) base at buf (ptr + 10 + len) endcu
        ]
      ]

  unfoldable pub line_loop : ℕ → List ℕ → ℕ → Walk (List ℕ)
  line_loop zero buf ptr = if ltb ptr (length buf) then stuck else ok buf
  line_loop (suc fuel) buf ptr =
      if ltb ptr (length buf)
      then unit_header d buf ptr then_ (λ (endcu, version).
        line_unit buf ptr endcu version then_ (λ (buf', ptr'). line_loop fuel buf' ptr'))
      else ok buf

  unfoldable pub adjust_dwarf2_line : List ℕ → Walk (List ℕ)
  adjust_dwarf2_line buf = line_loop (length buf) buf 0
