-- ===== src/Dwarf2/Expressions.antt =====
-- `adjust_location_list`: the addresses in a DWARF expression.
use prelink_cross.Base.{
  ℕ, zero, suc, ◌+◌, ◌-◌, Bool, false, ◌&&◌, ◌||◌, Option, none, some, List, [], ◌∷◌, length, drop,
  get_elem?, ltb, leb, ◌==◌, if◌then◌else◌, add64,
}
use prelink_cross.Dwarf2.{
  Debug, CuData, Walk, ok, failed, undefined_, stuck, ◌then_◌, of_option, ptr_size, read_ptr,
  write_ptr, moves, read_uleb128,
}

-- What stands behind an opcode, by the `case` of the `switch`: an address, so many bytes, so many
-- LEB128 numbers, or what the named operations have.
pub data Operand : Type 0 where
  address : Operand
  bytes : ℕ → Operand
  numbers : ℕ → Operand
  call_ref implicit_value implicit_pointer entry_value const_type deref_type unknown : Operand

abbrev pub among : ℕ → List ℕ → Bool
among op [] = false
among op (x ∷ xs) = op == x || among op xs

abbrev pub between : ℕ → ℕ → ℕ → Bool
between lo hi op = leb lo op && leb op hi

-- The opcodes of the `case`s with no operand, of those with bytes and of those with numbers.
abbrev pub plain_ops : List ℕ
plain_ops =
    0x06 ∷ 0x12 ∷ 0x13 ∷ 0x14 ∷ 0x16 ∷ 0x17 ∷ 0x18 ∷ 0x19 ∷ 0x1a ∷ 0x1b ∷ 0x1c ∷ 0x1d ∷ 0x1e ∷ 0x1f
    ∷ 0x20 ∷ 0x21 ∷ 0x22 ∷ 0x24 ∷ 0x25 ∷ 0x26 ∷ 0x27 ∷ 0x29 ∷ 0x2a ∷ 0x2b ∷ 0x2c ∷ 0x2d ∷ 0x2e
    ∷ 0x96 ∷ 0x97 ∷ 0x9b ∷ 0x9c ∷ 0x9f ∷ 0xe0 ∷ 0xf0 ∷ []

abbrev pub byte_ops : List ℕ
byte_ops = 0x08 ∷ 0x15 ∷ 0x94 ∷ 0x95 ∷ 0x09 ∷ []

abbrev pub two_byte_ops : List ℕ
two_byte_ops = 0x0a ∷ 0x0b ∷ 0x2f ∷ 0x28 ∷ 0x98 ∷ []

abbrev pub four_byte_ops : List ℕ
four_byte_ops = 0x0c ∷ 0x0d ∷ 0x99 ∷ 0xfa ∷ []

abbrev pub eight_byte_ops : List ℕ
eight_byte_ops = 0x0e ∷ 0x0f ∷ []

abbrev pub number_ops : List ℕ
number_ops = 0x10 ∷ 0x23 ∷ 0x90 ∷ 0x93 ∷ 0x11 ∷ 0x91 ∷ 0xf7 ∷ 0xf9 ∷ []

abbrev pub two_number_ops : List ℕ
two_number_ops = 0x92 ∷ 0x9d ∷ 0xf5 ∷ []

unfoldable pub operand_of : ℕ → Operand
operand_of op =
    if op == 0x03
    then address
    else if among op plain_ops || between 0x30 0x6f op
    then bytes 0
    else if among op byte_ops
    then bytes 1
    else if among op two_byte_ops
    then bytes 2
    else if among op four_byte_ops
    then bytes 4
    else if op == 0x9a
    then call_ref
    else if among op eight_byte_ops
    then bytes 8
    else if among op number_ops || between 0x70 0x8f op
    then numbers 1
    else if among op two_number_ops
    then numbers 2
    else if op == 0x9e
    then implicit_value
    else if op == 0xf2
    then implicit_pointer
    else if op == 0xf3
    then entry_value
    else if op == 0xf4
    then const_type
    else if op == 0xf6
    then deref_type
    else unknown

-- `read_uleb128 (ptr)` at an offset: the number, and the offset behind it.
unfoldable pub uleb_at : List ℕ → ℕ → Option (ℕ × ℕ)
uleb_at buf ptr = elim (read_uleb128 (drop ptr buf)) [
  | none ↦ none
  | some (v, rest) ↦ some (v, length buf - length rest)
]

unfoldable pub skip_numbers : ℕ → List ℕ → ℕ → Option ℕ
skip_numbers zero buf ptr = some ptr
skip_numbers (suc n) buf ptr = elim (uleb_at buf ptr) [
  | none ↦ none
  | some (v, ptr') ↦ skip_numbers n buf ptr'
]

-- The size of a reference to a unit.
abbrev pub ref_size : Debug → CuData → ℕ
ref_size d cu = if cu.cu_version == 2 then ptr_size d else 4

-- The case DW_OP_addr.
unfoldable pub adjust_address : Debug → ℕ → ℕ → List ℕ → ℕ → Option (List ℕ)
adjust_address d start adjust buf ptr = elim (read_ptr d buf ptr) [
  | none ↦ none
  | some addr ↦ if moves d start addr then write_ptr d buf ptr (add64 addr adjust) else some buf
]

-- The other cases but DW_OP_GNU_entry_value: the offset behind the operands. `cu` is `none` for
-- NULL.
unfoldable pub skip_operand : Debug → Option CuData → Operand → List ℕ → ℕ → Walk ℕ
skip_operand d cu (bytes n) buf ptr = ok (ptr + n)
skip_operand d cu (numbers n) buf ptr = of_option (skip_numbers n buf ptr)
skip_operand d none call_ref buf ptr = failed
skip_operand d (some cu) call_ref buf ptr = ok (ptr + ref_size d cu)
skip_operand d cu implicit_value buf ptr = elim (uleb_at buf ptr) [
  | none ↦ undefined_
  | some (len, ptr') ↦ ok (ptr' + len)
]
skip_operand d none implicit_pointer buf ptr = failed
skip_operand d (some cu) implicit_pointer buf ptr =
    of_option (skip_numbers 1 buf (ptr + ref_size d cu))
skip_operand d cu const_type buf ptr = elim (uleb_at buf ptr) [
  | none ↦ undefined_
  | some (v, ptr') ↦ elim (get_elem? buf ptr') [ none ↦ undefined_ | some n ↦ ok (ptr' + n + 1) ]
]
skip_operand d cu deref_type buf ptr = of_option (skip_numbers 1 buf (ptr + 1))
skip_operand d cu _ buf ptr = failed

module _ (d : Debug) (cu : Option CuData) (start adjust : ℕ) where
  -- The operands at `ptr`, and what follows them; `walk` is the function itself, and the loop.
  unfoldable pub adjust_operand :
      (List ℕ → ℕ → ℕ → Walk (List ℕ)) → Operand → List ℕ → ℕ → ℕ → Walk (List ℕ)
  adjust_operand walk address buf ptr end =
      of_option (adjust_address d start adjust buf ptr)
      then_ (λ buf'. walk buf' (ptr + ptr_size d) end)
  adjust_operand walk entry_value buf ptr end = elim (uleb_at buf ptr) [
    | none ↦ undefined_
    | some (len, ptr') ↦
        if ltb end (ptr' + len)
        then failed
        else walk buf ptr' (ptr' + len) then_ (λ buf'. walk buf' (ptr' + len) end)
  ]
  adjust_operand walk o buf ptr end = skip_operand d cu o buf ptr then_ (λ ptr'. walk buf ptr' end)

  -- The expression from `ptr` to `end` in the section `buf`; the walk may read past `end`.
  unfoldable pub adjust_location_list : ℕ → List ℕ → ℕ → ℕ → Walk (List ℕ)
  adjust_location_list zero buf ptr end = if ltb ptr end then stuck else ok buf
  adjust_location_list (suc fuel) buf ptr end =
      if ltb ptr end
      then elim (get_elem? buf ptr) [
        | none ↦ undefined_
        | some op ↦ adjust_operand (adjust_location_list fuel) (operand_of op) buf (ptr + 1) end
      ]
      else ok buf
