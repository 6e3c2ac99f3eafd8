-- ===== src/Ppc.antt =====
-- src/arch-ppc.c: the relocations of 32-bit PowerPC, which keep their addends beside the words and
-- relocate half words and fields of instructions too.
pub mod Words
pub mod Adjust
pub mod Prelink
pub mod Conflicts
pub mod Plt
pub mod Predicted
pub mod Undo
pub mod Fields
pub mod Applies
pub mod Machine
pub mod Encodings
pub mod Reaches
mod Tests
use prelink_cross.Base.{
  ℕ, ◌+◌, ◌-◌, ◌^◌, Bool, true, false, ◌&&◌, List, [], ◌∷◌, leb, ◌==◌, if◌then◌else◌, get_or,
}
use prelink_cross.Reloc.{rtype_class_valid, rtype_class_plt, rtype_class_copy, rtype_class_tls}

-- R_PPC_*, those that the file names; `unknown` is any other number.
pub data RelocType : Type 0 where
  none_ addr32 addr24 addr16 addr16_lo addr16_hi addr16_ha addr14 addr14_brtaken addr14_brntaken
        rel24 copy glob_dat jmp_slot relative uaddr32 uaddr16 rel32 dtpmod32 tprel16 tprel16_lo
        tprel16_hi tprel16_ha tprel32 dtprel16 dtprel16_lo dtprel16_hi dtprel16_ha dtprel32
        irelative :
      RelocType
  unknown : ℕ → RelocType

-- The types numbered from 0 on.
abbrev low_types : List RelocType
low_types =
    none_ ∷ addr32 ∷ addr24 ∷ addr16 ∷ addr16_lo ∷ addr16_hi ∷ addr16_ha ∷ addr14 ∷ addr14_brtaken
    ∷ addr14_brntaken ∷ rel24 ∷ []

-- From 19 on.
abbrev dynamic_types : List RelocType
dynamic_types = copy ∷ glob_dat ∷ jmp_slot ∷ relative ∷ []

-- From 24 on.
abbrev unaligned_types : List RelocType
unaligned_types = uaddr32 ∷ uaddr16 ∷ rel32 ∷ []

-- From 68 on.
abbrev tls_types : List RelocType
tls_types =
    dtpmod32 ∷ tprel16 ∷ tprel16_lo ∷ tprel16_hi ∷ tprel16_ha ∷ tprel32 ∷ dtprel16 ∷ dtprel16_lo
    ∷ dtprel16_hi ∷ dtprel16_ha ∷ dtprel32 ∷ []

unfoldable pub type_of : ℕ → RelocType
type_of n =
    if leb n 10
    then get_or low_types n (unknown n)
    else if leb 19 n && leb n 22
    then get_or dynamic_types (n - 19) (unknown n)
    else if leb 24 n && leb n 26
    then get_or unaligned_types (n - 24) (unknown n)
    else if leb 68 n && leb n 78
    then get_or tls_types (n - 68) (unknown n)
    else if n == 248
    then irelative
    else unknown n

abbrev pub number_of : RelocType → ℕ
number_of none_ = 0
number_of addr32 = 1
number_of addr24 = 2
number_of addr16 = 3
number_of addr16_lo = 4
number_of addr16_hi = 5
number_of addr16_ha = 6
number_of addr14 = 7
number_of addr14_brtaken = 8
number_of addr14_brntaken = 9
number_of rel24 = 10
number_of copy = 19
number_of glob_dat = 20
number_of jmp_slot = 21
number_of relative = 22
number_of uaddr32 = 24
number_of uaddr16 = 25
number_of rel32 = 26
number_of dtpmod32 = 68
number_of tprel16 = 69
number_of tprel16_lo = 70
number_of tprel16_hi = 71
number_of tprel16_ha = 72
number_of tprel32 = 73
number_of dtprel16 = 74
number_of dtprel16_lo = 75
number_of dtprel16_hi = 76
number_of dtprel16_ha = 77
number_of dtprel32 = 78
number_of irelative = 248
number_of (unknown n) = n

unfoldable pub reloc_size : RelocType → ℕ
reloc_size addr16 = 2
reloc_size uaddr16 = 2
reloc_size addr16_lo = 2
reloc_size addr16_hi = 2
reloc_size addr16_ha = 2
reloc_size dtprel16 = 2
reloc_size dtprel16_lo = 2
reloc_size dtprel16_hi = 2
reloc_size dtprel16_ha = 2
reloc_size tprel16 = 2
reloc_size tprel16_lo = 2
reloc_size tprel16_hi = 2
reloc_size tprel16_ha = 2
reloc_size _ = 4

-- The argument is the number.
unfoldable pub reloc_class : ℕ → ℕ
reloc_class n =
    if n == number_of copy
    then rtype_class_copy
    else if n == number_of jmp_slot
    then rtype_class_plt
    else if leb (number_of dtpmod32) n && leb n (number_of dtprel32)
    then rtype_class_tls
    else rtype_class_valid
