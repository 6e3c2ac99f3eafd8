-- ===== src/I386.antt =====
-- src/arch-i386.c: the relocations of i386, which keep their addends in the words they relocate
-- (REL) or beside them (RELA).
mod Words
pub mod Adjust
pub mod Prelink
pub mod Conflicts
pub mod Convert
pub mod Undo
pub mod Agree
pub mod RoundTrip
mod Tests
use prelink_cross.Base.{
  ℕ, ◌+◌, ◌-◌, ◌^◌, Bool, List, [], ◌∷◌, Option, none, some, ◌==◌, ltb, if◌then◌else◌, u32,
}
use prelink_cross.Bytes.{ByteOrder, lsb, w32}
use prelink_cross.Data.{M, read_u, write}
use prelink_cross.Reloc.{rtype_class_valid, rtype_class_plt, rtype_class_copy, rtype_class_tls}

-- R_386_*, those that the file names; `unknown` is any other number.
pub data RelocType : Type 0 where
  none_ r32 pc32 copy glob_dat jmp_slot relative tls_tpoff dtpmod32 dtpoff32 tpoff32 irelative :
      RelocType
  unknown : ℕ → RelocType

unfoldable pub type_of : ℕ → RelocType
type_of n =
    if n == 0
    then none_
    else if n == 1
    then r32
    else if n == 2
    then pc32
    else if n == 5
    then copy
    else if n == 6
    then glob_dat
    else if n == 7
    then jmp_slot
    else if n == 8
    then relative
    else if n == 14
    then tls_tpoff
    else if n == 35
    then dtpmod32
    else if n == 36
    then dtpoff32
    else if n == 37
    then tpoff32
    else if n == 42
    then irelative
    else unknown n

abbrev pub number_of : RelocType → ℕ
number_of none_ = 0
number_of r32 = 1
number_of pc32 = 2
number_of copy = 5
number_of glob_dat = 6
number_of jmp_slot = 7
number_of relative = 8
number_of tls_tpoff = 14
number_of dtpmod32 = 35
number_of dtpoff32 = 36
number_of tpoff32 = 37
number_of irelative = 42
number_of (unknown n) = n

-- `(Elf32_Sword) x`, widened to 64 bits again.
abbrev pub sword : ℕ → ℕ
sword x = if ltb (u32 x) (2 ^ 31) then u32 x else u32 x + (2 ^ 64 - 2 ^ 32)

abbrev pub read_ule32 : ByteOrder → ℕ → M ℕ
read_ule32 host addr d = read_u host lsb w32 addr d

abbrev pub write_le32 : ByteOrder → ℕ → ℕ → M Bool
write_le32 host addr val d = write host lsb w32 addr val d

-- The `assert` fails at R_386_COPY.
unfoldable pub reloc_size : RelocType → Option ℕ
reloc_size copy = none
reloc_size _ = some 4

unfoldable pub reloc_class : RelocType → ℕ
reloc_class copy = rtype_class_copy
reloc_class jmp_slot = rtype_class_plt
reloc_class dtpmod32 = rtype_class_tls
reloc_class dtpoff32 = rtype_class_tls
reloc_class tpoff32 = rtype_class_tls
reloc_class tls_tpoff = rtype_class_tls
reloc_class _ = rtype_class_valid
