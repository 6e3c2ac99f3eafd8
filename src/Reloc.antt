-- ===== src/Reloc.antt =====
-- Relocations as `GElf_Rela` of libelf gives them, and the TLS blocks and conflicts of
-- src/prelink.h that the relocation code of the architectures works with.
use prelink_cross.Base.{ℕ, ◌+◌, ◌%◌, ◌^◌, Bool, ◌==◌, if◌then◌else◌, add64, ◌<<<◌, ◌>>>◌}

-- `r_addend` is the 64-bit pattern of the signed field: the source only adds it and compares it
-- with addresses, which are unsigned.
pub record Rela : Type 0 where
  pub r_offset : ℕ
  pub r_info : ℕ
  pub r_addend : ℕ

-- `GElf_Rel`: the addend is the word at `r_offset`.
pub record Rel : Type 0 where
  pub r_offset : ℕ
  pub r_info : ℕ

-- GELF_R_SYM, GELF_R_TYPE and GELF_R_INFO of the ELF standard.
abbrev pub gelf_r_sym : ℕ → ℕ
gelf_r_sym info = info >>> 32

abbrev pub gelf_r_type : ℕ → ℕ
gelf_r_type info = info % 2 ^ 32

abbrev pub gelf_r_info : ℕ → ℕ → ℕ
gelf_r_info sym type = sym <<< 32 + type

-- RTYPE_CLASS_*.
abbrev pub rtype_class_valid : ℕ
rtype_class_valid = 8

abbrev pub rtype_class_plt : ℕ
rtype_class_plt = 9

abbrev pub rtype_class_copy : ℕ
rtype_class_copy = 10

abbrev pub rtype_class_tls : ℕ
rtype_class_tls = 12

-- `struct prelink_tls`.
pub record Tls : Type 0 where
  pub modid : ℕ
  pub offset : ℕ

-- `struct prelink_conflict`, the fields that the architectures read. `lookup` and `conflict` are
-- pointers, 0 for NULL.
pub record Conflict : Type 0 where
  pub lookup : ℕ
  pub conflict : ℕ
  pub lookupval : ℕ
  pub conflictval : ℕ
  pub reloc_class : ℕ
  pub ifunc : Bool

-- The objects behind those pointers: the `base` of a prelink_entry, or a prelink_tls.
pub record Objects : Type 0 where
  pub base_of : ℕ → ℕ
  pub tls_of : ℕ → Tls

-- `conflict_lookup_value` of prelink.h.
unfoldable pub conflict_lookup_value : Objects → Conflict → ℕ
conflict_lookup_value o c =
    add64 (if c.reloc_class == rtype_class_tls then 0 else o.base_of c.lookup) c.lookupval
