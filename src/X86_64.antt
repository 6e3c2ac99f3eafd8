-- ===== src/X86_64.antt =====
-- src/arch-x86_64.c: the relocations of x86-64 and of its x32 ABI.
pub mod Adjust
pub mod Prelink
pub mod Conflicts
pub mod Undo
mod Tests
use prelink_cross.Base.{
  ℕ, ◌^◌, ◌%◌, Bool, true, false, ◌&&◌, Option, none, some, List, [], ◌∷◌, ◌==◌, if◌then◌else◌,
}
use prelink_cross.Bytes.{ByteOrder, lsb, Width, w32, w64, buf_write_ne}
use prelink_cross.Dso.{Dso, Shdr, sht_progbits}
use prelink_cross.Data.{M, read_u, write}
use prelink_cross.Reloc.{rtype_class_valid, rtype_class_plt, rtype_class_copy, rtype_class_tls}

-- R_X86_64_*, those that the file names; `unknown` is any other number.
pub data RelocType : Type 0 where
  none_ r64 pc32 copy glob_dat jump_slot relative r32 dtpmod64 dtpoff64 tpoff64 irelative :
      RelocType
  unknown : ℕ → RelocType

unfoldable pub type_of : ℕ → RelocType
type_of n =
    if n == 0
    then none_
    else if n == 1
    then r64
    else if n == 2
    then pc32
    else if n == 5
    then copy
    else if n == 6
    then glob_dat
    else if n == 7
    then jump_slot
    else if n == 8
    then relative
    else if n == 10
    then r32
    else if n == 16
    then dtpmod64
    else if n == 17
    then dtpoff64
    else if n == 18
    then tpoff64
    else if n == 37
    then irelative
    else unknown n

abbrev pub number_of : RelocType → ℕ
number_of none_ = 0
number_of r64 = 1
number_of pc32 = 2
number_of copy = 5
number_of glob_dat = 6
number_of jump_slot = 7
number_of relative = 8
number_of r32 = 10
number_of dtpmod64 = 16
number_of dtpoff64 = 17
number_of tpoff64 = 18
number_of irelative = 37
number_of (unknown n) = n

-- read_uleclass, write_leclass and buf_write_leclass: the functions of 32 or of 64 bits.
abbrev pub class_width : Bool → Width
class_width true = w64
class_width false = w32

unfoldable pub read_uleclass : ByteOrder → ℕ → M ℕ
read_uleclass host addr d = read_u host lsb (class_width d.elf64) addr d

unfoldable pub write_leclass : ByteOrder → ℕ → ℕ → M Bool
write_leclass host addr val d = write host lsb (class_width d.elf64) addr val d

unfoldable pub buf_write_leclass : Bool → List ℕ → ℕ → Option (List ℕ)
buf_write_leclass elf64 = buf_write_ne lsb (class_width elf64)

unfoldable pub reloc_size : RelocType → ℕ
reloc_size glob_dat = 8
reloc_size jump_slot = 8
reloc_size r64 = 8
reloc_size irelative = 8
reloc_size _ = 4

unfoldable pub x32_reloc_size : RelocType → ℕ
x32_reloc_size r64 = 8
x32_reloc_size _ = 4

unfoldable pub reloc_class : RelocType → ℕ
reloc_class copy = rtype_class_copy
reloc_class jump_slot = rtype_class_plt
reloc_class dtpmod64 = rtype_class_tls
reloc_class dtpoff64 = rtype_class_tls
reloc_class tpoff64 = rtype_class_tls
reloc_class _ = rtype_class_valid

-- `strcmp (a, b) == 0`
unfoldable pub same_name : List ℕ → List ℕ → Bool
same_name [] [] = true
same_name (a ∷ s) (b ∷ t) = a == b && same_name s t
same_name _ _ = false

-- ".plt", ".got" and ".got.plt".
abbrev pub plt_name : List ℕ
plt_name = b'.' ∷ b'p' ∷ b'l' ∷ b't' ∷ []

abbrev pub got_name : List ℕ
got_name = b'.' ∷ b'g' ∷ b'o' ∷ b't' ∷ []

abbrev pub got_plt_name : List ℕ
got_plt_name = b'.' ∷ b'g' ∷ b'o' ∷ b't' ∷ b'.' ∷ b'p' ∷ b'l' ∷ b't' ∷ []

-- The first section of a list that is the PROGBITS section .plt.
unfoldable pub find_plt : List Shdr → Option Shdr
find_plt [] = none
find_plt (s ∷ l) =
    if s.sh_type == sht_progbits && same_name s.name plt_name then some s else find_plt l
