-- ===== src/X86_64/Conflicts.antt =====
-- x86_64_prelink_conflict_rela: the relocation that a program needs where a symbol of one of its
-- libraries resolves otherwise than when the library was prelinked.
pub mod Applies
use prelink_cross.Base.{
  ℕ, ◌+◌, ◌*◌, ◌^◌, ◌%◌, Bool, true, false, ◌&&◌, ◌||◌, not, Option, none, some, ◌==◌,
  if◌then◌else◌, add64, sub64,
}
use prelink_cross.Reloc.{
  Rela, Conflict, Objects, gelf_r_type, gelf_r_info, rtype_class_tls, conflict_lookup_value,
}
use prelink_cross.X86_64.{
  RelocType, none_, r64, pc32, copy, glob_dat, jump_slot, relative, r32, dtpmod64, dtpoff64,
  tpoff64, irelative, unknown, type_of, number_of,
}

-- No conflict is needed, one is added, or one was added and then 1 is returned, after a message.
pub data Verdict : Type 0 where
  nothing : Verdict
  added : Rela → Verdict
  failed : Verdict

-- `same_dso` is `info->dso == dso`, and `curtls` is `info->curtls`, 0 for NULL.
module _ (elf64 same_dso : Bool) (curtls : ℕ) (objects : Objects) where
  -- The value that the conflict gives, or `none` for an early `return 0`. The argument is what
  -- `prelink_conflict` returns.
  unfoldable pub conflict_value : RelocType → Option Conflict → Option ℕ
  conflict_value dtpmod64 none = if curtls == 0 || same_dso then none else some 0
  conflict_value tpoff64 none = if curtls == 0 || same_dso then none else some 0
  conflict_value irelative none = some 0
  conflict_value _ none = none
  conflict_value dtpoff64 (some c) =
      if same_dso && not c.ifunc || c.lookup == c.conflict && c.lookupval == c.conflictval
      then none
      else some (conflict_lookup_value objects c)
  conflict_value _ (some c) =
      if same_dso && not c.ifunc then none else some (conflict_lookup_value objects c)

  -- An ordinary word: `ifunc` makes it an IRELATIVE relocation.
  abbrev word_rela : ℕ → Rela → Option Conflict → ℕ → Verdict
  word_rela number rela none addend =
      added (record { r_offset = rela.r_offset; r_info = gelf_r_info 0 number; r_addend = addend })
  word_rela number rela (some c) addend = added (record {
    r_offset = rela.r_offset;
    r_info = gelf_r_info 0 (if c.ifunc then number_of irelative else number);
    r_addend = addend;
  })

  -- A word of thread-local storage: a conflict must be of that class, and with none the block is
  -- that of the library itself.
  abbrev tls_rela : Rela → Option Conflict → (ℕ → ℕ) → Verdict
  tls_rela rela none addend_at = added (record {
    r_offset = rela.r_offset;
    r_info = gelf_r_info 0 (number_of r64);
    r_addend = addend_at curtls;
  })
  tls_rela rela (some c) addend_at =
      if not (c.reloc_class == rtype_class_tls) || c.lookup == 0
      then failed
      else added (record {
        r_offset = rela.r_offset;
        r_info = gelf_r_info 0 (number_of r64);
        r_addend = addend_at c.lookup;
      })

  unfoldable pub conflict_rela : RelocType → Rela → Option Conflict → ℕ → Verdict
  conflict_rela glob_dat rela c value =
      word_rela (if elf64 then number_of r64 else number_of r32) rela c (add64 value rela.r_addend)
  conflict_rela jump_slot rela c value =
      word_rela (number_of jump_slot) rela c (add64 value rela.r_addend)
  conflict_rela r32 rela c value = word_rela (number_of r32) rela c (add64 value rela.r_addend)
  conflict_rela r64 rela c value = word_rela (number_of r64) rela c (add64 value rela.r_addend)
  conflict_rela irelative rela c value =
      word_rela (number_of irelative) rela c (add64 value rela.r_addend)
  conflict_rela pc32 rela c value = added (record {
    r_offset = rela.r_offset;
    r_info = gelf_r_info 0 (number_of r32);
    r_addend = sub64 (add64 value rela.r_addend) rela.r_offset;
  })
  conflict_rela dtpmod64 rela c value = tls_rela rela c (λ t. (objects.tls_of t).modid)
  conflict_rela dtpoff64 rela c value = tls_rela rela c (λ t. add64 value rela.r_addend)
  conflict_rela tpoff64 rela c value =
      tls_rela rela c (λ t. sub64 (add64 value rela.r_addend) (objects.tls_of t).offset)
  conflict_rela _ rela c value = failed

  unfoldable pub conflict_type : RelocType → Rela → Option Conflict → Verdict
  unfolding conflict_value conflict_rela
  conflict_type relative rela c = nothing
  conflict_type none_ rela c = nothing
  conflict_type t rela c = elim (conflict_value t c) [
    | none ↦ nothing
    | some value ↦ conflict_rela t rela c value
  ]

  unfoldable pub prelink_conflict_rela : Rela → Option Conflict → Verdict
  unfolding conflict_type
  prelink_conflict_rela rela c = conflict_type (type_of (gelf_r_type rela.r_info)) rela c
