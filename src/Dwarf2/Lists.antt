-- ===== src/Dwarf2/Lists.antt =====
-- `adjust_dwarf2_ranges` and `adjust_dwarf2_loc`: the lists of address ranges in .debug_ranges and
-- of locations in .debug_loc. Both functions flag their section as dirty when they return 0.
use prelink_cross.Base.{
  ℕ, zero, suc, ◌+◌, ◌-◌, ◌*◌, ◌^◌, Bool, ◌&&◌, ◌||◌, not, Option, none, some, List, length, drop,
  ltb, leb, ◌==◌, if◌then◌else◌, add64, sub64,
}
use prelink_cross.Bytes.{w16, buf_read_une}
use prelink_cross.Dwarf2.{
  Debug, CuData, Walk, ok, failed, undefined_, stuck, ◌then_◌, of_option, ptr_size, read_ptr,
  write_ptr, moves, in_section,
}
use prelink_cross.Dwarf2.Expressions.{adjust_location_list}

-- An entry that selects a new base.
abbrev pub is_base : Debug → ℕ → Bool
is_base d low = low == 2 ^ 64 - 1 || ptr_size d == 4 && low == 0xffffffff

-- The two words of an entry.
unfoldable pub read_pair : Debug → List ℕ → ℕ → Option (ℕ × ℕ)
read_pair d buf ptr = elim (read_ptr d buf ptr) [
  | none ↦ none
  | some low ↦ elim (read_ptr d buf (ptr + ptr_size d)) [
    | none ↦ none
    | some high ↦ some (low, high)
  ]
]

module _ (d : Debug) (start adjust : ℕ) where
  abbrev pub adjusted_base : ℕ → Bool
  adjusted_base base = not (base == 0) && moves d start base

  -- The second word of an entry that selects a base, from `ptr` on.
  abbrev pub write_base : List ℕ → ℕ → ℕ → Option (List ℕ)
  write_base buf ptr base =
      if adjusted_base base
      then write_ptr d buf (ptr + ptr_size d) (add64 base adjust)
      else some buf

  -- The first word of a range, from `ptr` on, and the second if it is equal.
  abbrev pub shift_low : List ℕ → ℕ → ℕ → ℕ → ℕ → Option (List ℕ)
  shift_low buf ptr base low high =
      if moves d start (add64 base low)
      then elim (write_ptr d buf ptr (add64 low adjust)) [
        | none ↦ none
        | some buf' ↦
            if high == low
            then write_ptr d buf' (ptr + ptr_size d) (add64 high adjust)
            else some buf'
      ]
      else some buf

  -- The second word otherwise: the section of the last address counts.
  abbrev pub shift_high : List ℕ → ℕ → ℕ → ℕ → ℕ → Option (List ℕ)
  shift_high buf ptr base low high =
      if not (low == high)
        && leb start (add64 base high)
        && in_section d (sub64 (add64 base high) 1)
      then write_ptr d buf (ptr + ptr_size d) (add64 high adjust)
      else some buf

  unfoldable pub shift_range : List ℕ → ℕ → ℕ → ℕ → ℕ → Option (List ℕ)
  shift_range buf ptr base low high =
      if adjusted_base base then some buf else elim (shift_low buf ptr base low high) [
        | none ↦ none
        | some buf' ↦ shift_high buf' ptr base low high
      ]

  -- What is done with an entry that does not end the list; `walk` is the loop.
  unfoldable pub ranges_entry :
      (List ℕ → ℕ → ℕ → Walk (List ℕ)) → List ℕ → ℕ → ℕ → ℕ → ℕ → Walk (List ℕ)
  ranges_entry walk buf ptr base low high =
      if is_base d low
      then of_option (write_base buf ptr high) then_ (λ buf'. walk buf' (ptr + 2 * ptr_size d) high)
      else of_option (shift_range buf ptr base low high)
        then_ (λ buf'. walk buf' (ptr + 2 * ptr_size d) base)

  unfoldable pub ranges_loop : ℕ → List ℕ → ℕ → ℕ → Walk (List ℕ)
  ranges_loop zero buf ptr base = if ltb ptr (length buf) then stuck else ok buf
  ranges_loop (suc fuel) buf ptr base =
      if ltb ptr (length buf)
      then elim (read_pair d buf ptr) [
        | none ↦ undefined_
        | some (low, high) ↦
            if low == 0 && high == 0
            then ok buf
            else ranges_entry (ranges_loop fuel) buf ptr base low high
      ]
      else ok buf

  -- The section is `none` if the object has none.
  unfoldable pub adjust_dwarf2_ranges : Option (List ℕ) → ℕ → ℕ → Walk (List ℕ)
  adjust_dwarf2_ranges none offset base = failed
  adjust_dwarf2_ranges (some buf) offset base =
      if leb (length buf) offset then failed else ranges_loop (length buf) buf offset base

  -- The expression of an entry, with its length before it.
  unfoldable pub loc_expression :
      Option CuData → (List ℕ → ℕ → Walk (List ℕ)) → List ℕ → ℕ → Walk (List ℕ)
  loc_expression cu walk buf ptr = elim (buf_read_une d.dso.e_data w16 (drop ptr buf)) [
    | none ↦ undefined_
    | some len ↦
        if leb (ptr + 2 + len) (length buf)
        then adjust_location_list d cu start adjust len buf (ptr + 2) (ptr + 2 + len)
          then_ (λ buf'. walk buf' (ptr + 2 + len))
        else undefined_
  ]

  unfoldable pub loc_entry :
      Option CuData → (List ℕ → ℕ → Walk (List ℕ)) → List ℕ → ℕ → ℕ → ℕ → Walk (List ℕ)
  loc_entry cu walk buf ptr low high =
      if is_base d low
      then of_option (write_base buf ptr high) then_ (λ buf'. walk buf' (ptr + 2 * ptr_size d))
      else loc_expression cu walk buf (ptr + 2 * ptr_size d)

  unfoldable pub loc_loop : Option CuData → ℕ → List ℕ → ℕ → Walk (List ℕ)
  loc_loop cu zero buf ptr = if ltb ptr (length buf) then stuck else ok buf
  loc_loop cu (suc fuel) buf ptr =
      if ltb ptr (length buf)
      then elim (read_pair d buf ptr) [
        | none ↦ undefined_
        | some (low, high) ↦
            if low == 0 && high == 0
            then ok buf
            else loc_entry cu (loc_loop cu fuel) buf ptr low high
      ]
      else ok buf

  unfoldable pub adjust_dwarf2_loc : Option CuData → Option (List ℕ) → ℕ → Walk (List ℕ)
  adjust_dwarf2_loc cu none offset = failed
  adjust_dwarf2_loc cu (some buf) offset =
      if leb (length buf) offset then failed else loc_loop cu (length buf) buf offset
