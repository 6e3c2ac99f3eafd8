-- ===== src/I386/Conflicts.antt =====
-- i386_prelink_conflict_rel and i386_prelink_conflict_rela: the relocation that a program needs
-- where a symbol of one of its libraries resolves otherwise than when the library was prelinked.
-- The memory for the conflict is there.
use prelink_cross.Base.{
  ℕ, Bool, ◌&&◌, ◌||◌, not, Option, none, some, ◌==◌, if◌then◌else◌, add64, sub64,
}
use prelink_cross.Bytes.{ByteOrder}
use prelink_cross.Data.{M, ◌>>=◌, pure}
use prelink_cross.Reloc.{
  Rel, Rela, Tls, Conflict, Objects, gelf_r_type, gelf_r_info, rtype_class_tls,
  conflict_lookup_value,
}
use prelink_cross.X86_64.Conflicts.{Verdict, nothing, added, failed}
use prelink_cross.I386.{
  RelocType, none_, r32, pc32, glob_dat, jmp_slot, relative, tls_tpoff, dtpmod32, dtpoff32, tpoff32,
  irelative, type_of, number_of, sword, read_ule32,
}

-- `same_dso` is `info->dso == dso`, and `curtls` is `info->curtls`, 0 for NULL.
module _ (same_dso : Bool) (curtls : ℕ) (objects : Objects) where
  -- The value that the conflict gives, or `none` for an early `return 0`. The argument is what
  -- `prelink_conflict` returns.
  unfoldable pub conflict_value : RelocType → Option Conflict → Option ℕ
  conflict_value dtpmod32 none = if curtls == 0 || same_dso then none else some 0
  conflict_value tpoff32 none = if curtls == 0 || same_dso then none else some 0
  conflict_value tls_tpoff none = if curtls == 0 || same_dso then none else some 0
  conflict_value irelative none = some 0
  conflict_value _ none = none
  conflict_value dtpoff32 (some c) =
      if same_dso && not c.ifunc || c.lookup == c.conflict && c.lookupval == c.conflictval
      then none
      else some (conflict_lookup_value objects c)
  conflict_value _ (some c) =
      if same_dso && not c.ifunc then none else some (conflict_lookup_value objects c)

  -- A conflict at `r_offset`, of the given type and addend.
  abbrev pub at_offset : ℕ → ℕ → ℕ → Verdict
  at_offset r_offset number addend =
      added (record { r_offset = r_offset; r_info = gelf_r_info 0 number; r_addend = addend })

  -- `ifunc` makes it an IRELATIVE relocation.
  abbrev pub word_number : ℕ → Option Conflict → ℕ
  word_number number none = number
  word_number number (some c) = if c.ifunc then number_of irelative else number

  -- A word of thread-local storage: a conflict must be of that class, and with none the block is
  -- that of the library itself.
  abbrev pub tls_rela : ℕ → Option Conflict → (Tls → ℕ) → Verdict
  tls_rela r_offset none addend_at =
      at_offset r_offset (number_of r32) (addend_at (objects.tls_of curtls))
  tls_rela r_offset (some c) addend_at =
      if not (c.reloc_class == rtype_class_tls) || c.lookup == 0
      then failed
      else at_offset r_offset (number_of r32) (addend_at (objects.tls_of c.lookup))

  -- The last `switch` of the function for RELA.
  unfoldable pub rela_verdict : RelocType → Rela → Option Conflict → ℕ → Verdict
  rela_verdict glob_dat rela c value =
      at_offset rela.r_offset (word_number (number_of r32) c) (sword (add64 value rela.r_addend))
  rela_verdict jmp_slot rela c value =
      at_offset rela.r_offset (word_number (number_of jmp_slot) c)
        (sword (add64 value rela.r_addend))
  rela_verdict irelative rela c value =
      at_offset rela.r_offset (number_of irelative) (sword (add64 value rela.r_addend))
  rela_verdict r32 rela c value =
      at_offset rela.r_offset (word_number (number_of r32) c) (sword (add64 value rela.r_addend))
  rela_verdict pc32 rela c value =
      at_offset rela.r_offset (number_of r32)
        (sword (sub64 (add64 value rela.r_addend) rela.r_offset))
  rela_verdict dtpmod32 rela c value = tls_rela rela.r_offset c (λ t. t.modid)
  rela_verdict dtpoff32 rela c value = tls_rela rela.r_offset c (λ t. value)
  rela_verdict tpoff32 rela c value =
      tls_rela rela.r_offset c (λ t. sub64 0 (sub64 (add64 value rela.r_addend) t.offset))
  rela_verdict tls_tpoff rela c value =
      tls_rela rela.r_offset c (λ t. sub64 (add64 value rela.r_addend) t.offset)
  rela_verdict _ rela c value = failed

  -- `found` is what `prelink_conflict` returns for the symbol and the type.
  abbrev pub verdict_of : RelocType → Option Conflict → (ℕ → Verdict) → Verdict
  verdict_of none_ found f = nothing
  verdict_of relative found f = nothing
  verdict_of t found f = elim (conflict_value t found) [ none ↦ nothing | some value ↦ f value ]

  unfoldable pub conflict_rela : Rela → Option Conflict → Verdict
  conflict_rela rela found =
      let t = type_of (gelf_r_type rela.r_info) in verdict_of t found (rela_verdict t rela found)

  module _ (host : ByteOrder) where
    -- The same with the word, which is read where the conflict is of that class.
    abbrev pub tls_rel : Rel → Option Conflict → (ℕ → Tls → ℕ) → M Verdict
    tls_rel rel none addend_at = do
      word ← read_ule32 host rel.r_offset
      pure (tls_rela rel.r_offset none (addend_at word))
    tls_rel rel (some c) addend_at =
        if not (c.reloc_class == rtype_class_tls) || c.lookup == 0 then pure failed else (do
          word ← read_ule32 host rel.r_offset
          pure (tls_rela rel.r_offset (some c) (addend_at word)))

    -- The last `switch` of the function for REL. Where it needs the word, it reads it.
    unfoldable pub rel_verdict : RelocType → Rel → Option Conflict → ℕ → M Verdict
    rel_verdict glob_dat rel c value =
        pure (at_offset rel.r_offset (word_number (number_of r32) c) (sword value))
    rel_verdict jmp_slot rel c value =
        pure (at_offset rel.r_offset (word_number (number_of jmp_slot) c) (sword value))
    rel_verdict irelative rel c value = do
      word ← read_ule32 host rel.r_offset
      pure (at_offset rel.r_offset (number_of irelative) (sword word))
    rel_verdict dtpmod32 rel c value = pure (tls_rela rel.r_offset c (λ t. t.modid))
    rel_verdict dtpoff32 rel c value = pure (tls_rela rel.r_offset c (λ t. value))
    rel_verdict tpoff32 rel c value =
        tls_rel rel c (λ word t. sub64 0 (sub64 (add64 value word) t.offset))
    rel_verdict tls_tpoff rel c value = tls_rel rel c (λ word t. sub64 (add64 value word) t.offset)
    rel_verdict _ rel c value = pure failed

    abbrev rel_verdict_of : RelocType → Option Conflict → (ℕ → M Verdict) → M Verdict
    rel_verdict_of none_ found f = pure nothing
    rel_verdict_of relative found f = pure nothing
    rel_verdict_of t found f = elim (conflict_value t found) [
      | none ↦ pure nothing
      | some value ↦ f value
    ]

    unfoldable pub conflict_rel : Rel → Option Conflict → M Verdict
    conflict_rel rel found =
        let t = type_of (gelf_r_type rel.r_info) in rel_verdict_of t found (rel_verdict t rel found)
