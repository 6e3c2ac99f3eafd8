-- ===== src/RelocInfo.antt =====
-- src/reloc-info.c: the parts of `r_info`, which 64-bit MIPS lays out in a way of its own. The union
-- of that file is the list of its eight bytes: four of `r_sym`, then `r_ssym`, `r_type3`, `r_type2`
-- and `r_type`.
pub mod RoundTrip
mod Tests
use prelink_cross.Base.{
  ℕ, Bool, ◌&&◌, Option, none, some, List, ◌==◌, if◌then◌else◌, get_elem?, set, replicate, u8,
}
use prelink_cross.Bytes.{ByteOrder, w32, w64, buf_read_une, buf_write_ne}
use prelink_cross.Dso.{Dso}
use prelink_cross.Reloc.{gelf_r_sym, gelf_r_type, gelf_r_info}

-- Numbers of the ELF standard.
abbrev pub em_mips : ℕ
em_mips = 8

abbrev pub rss_undef : ℕ
rss_undef = 0

abbrev pub r_mips_none : ℕ
r_mips_none = 0

abbrev pub r_mips_rel32 : ℕ
r_mips_rel32 = 3

abbrev pub r_mips_64 : ℕ
r_mips_64 = 18

abbrev pub r_mips_glob_dat : ℕ
r_mips_glob_dat = 51

-- The union before anything is stored; every byte is stored before it is read.
abbrev pub empty_union : List ℕ
empty_union = replicate 8 0

module _ (o : ByteOrder) where
  unfoldable pub mips64_r_sym : ℕ → Option ℕ
  mips64_r_sym r_info = elim (buf_write_ne o w64 empty_union r_info) [
    | none ↦ none
    | some u ↦ buf_read_une o w32 u
  ]

  -- The four functions for the fields of one byte.
  unfoldable pub mips64_byte : ℕ → ℕ → Option ℕ
  mips64_byte i r_info = elim (buf_write_ne o w64 empty_union r_info) [
    | none ↦ none
    | some u ↦ get_elem? u i
  ]

  unfoldable pub mips64_r_info_ext : ℕ → ℕ → ℕ → ℕ → ℕ → Option ℕ
  mips64_r_info_ext r_sym r_ssym r_type r_type2 r_type3 =
      elim (buf_write_ne o w32 empty_union r_sym) [
        | none ↦ none
        | some u ↦
            buf_read_une o w64 (set (set (set (set u 4 r_ssym) 7 r_type) 6 r_type2) 5 r_type3)
      ]

abbrev pub is_mips64 : Dso → Bool
is_mips64 d = d.elf64 && d.e_machine == em_mips

unfoldable pub reloc_r_sym : Dso → ℕ → Option ℕ
reloc_r_sym d r_info =
    if is_mips64 d then mips64_r_sym d.e_data r_info else some (gelf_r_sym r_info)

unfoldable pub reloc_r_ssym : Dso → ℕ → Option ℕ
reloc_r_ssym d r_info = if is_mips64 d then mips64_byte d.e_data 4 r_info else some rss_undef

unfoldable pub reloc_r_type : Dso → ℕ → Option ℕ
reloc_r_type d r_info =
    if is_mips64 d then mips64_byte d.e_data 7 r_info else some (gelf_r_type r_info)

unfoldable pub reloc_r_type2 : Dso → ℕ → Option ℕ
reloc_r_type2 d r_info = if is_mips64 d then mips64_byte d.e_data 6 r_info else some 0

unfoldable pub reloc_r_type3 : Dso → ℕ → Option ℕ
reloc_r_type3 d r_info = if is_mips64 d then mips64_byte d.e_data 5 r_info else some 0

-- `r_type` becomes a byte when it is passed on.
unfoldable pub reloc_r_info : Dso → ℕ → ℕ → Option ℕ
reloc_r_info d r_sym r_type =
    let second =
      if r_type == r_mips_rel32
      then r_mips_64
      else if r_type == r_mips_glob_dat
      then r_mips_64
      else r_mips_none in
    if is_mips64 d
    then mips64_r_info_ext d.e_data r_sym rss_undef (u8 r_type) second r_mips_none
    else some (gelf_r_info r_sym r_type)

unfoldable pub reloc_r_info_ext : Dso → ℕ → ℕ → ℕ → ℕ → ℕ → Option ℕ
reloc_r_info_ext d r_sym r_ssym r_type r_type2 r_type3 =
    if is_mips64 d
    then mips64_r_info_ext d.e_data r_sym r_ssym r_type r_type2 r_type3
    else some (gelf_r_info r_sym r_type)
