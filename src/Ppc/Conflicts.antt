-- ===== src/Ppc/Conflicts.antt =====
-- ppc_prelink_conflict_rela: the relocation that a program needs where a symbol of one of its
-- libraries resolves otherwise than when the library was prelinked.
use prelink_cross.Base.{
  ℕ, Bool, ◌&&◌, ◌||◌, not, Option, none, some, ◌==◌, if◌then◌else◌, add64, sub64, ◌>>>◌,
}
use prelink_cross.Bytes.{ByteOrder}
use prelink_cross.Data.{M, ◌>>=◌, pure}
use prelink_cross.Reloc.{
  Rela, Conflict, Objects, gelf_r_type, gelf_r_info, rtype_class_tls, conflict_lookup_value,
}
use prelink_cross.X86_64.Conflicts.{Verdict, nothing, added, failed}
use prelink_cross.Ppc.{
  RelocType, none_, addr32, addr24, addr16, addr16_lo, addr16_hi, addr16_ha, addr14, addr14_brtaken,
  addr14_brntaken, rel24, copy, glob_dat, jmp_slot, relative, uaddr32, uaddr16, rel32, dtpmod32,
  tprel16, tprel16_lo, tprel16_hi, tprel16_ha, tprel32, dtprel16, dtprel16_lo, dtprel16_hi,
  dtprel16_ha, dtprel32, irelative, unknown, type_of, number_of,
}
use prelink_cross.Ppc.Words.{
  read_ube32, sword, sign_16, high_adjusted, field_24, field_14, field_14_predicted,
}

-- A conflict that is only a lookup.
abbrev pub is_lookup : Conflict → Bool
is_lookup c = c.lookup == c.conflict && c.lookupval == c.conflictval

-- `ret`, with its type and the value that becomes its addend.
abbrev pub ret : Rela → RelocType → ℕ → Rela
ret rela t value = record {
  r_offset = rela.r_offset;
  r_info = gelf_r_info 0 (number_of t);
  r_addend = sword value;
}

-- A word of its own: an IFUNC makes it an IRELATIVE relocation.
abbrev pub word_rela : RelocType → Rela → Option Conflict → ℕ → Verdict
word_rela t rela none value = added (ret rela t value)
word_rela t rela (some c) value = added (ret rela (if c.ifunc then irelative else t) value)

-- Any other relocation must not be against an IFUNC.
abbrev pub plain_rela : RelocType → Rela → Option Conflict → ℕ → Verdict
plain_rela t rela none value = added (ret rela t value)
plain_rela t rela (some c) value = if c.ifunc then failed else added (ret rela t value)

-- A whole word, in which one field is changed.
abbrev pub field_rela : ByteOrder → Rela → Option Conflict → (ℕ → ℕ) → M Verdict
field_rela host rela c field = do
  word ← read_ube32 host rela.r_offset
  pure (plain_rela addr32 rela c (field word))

-- `same_dso` is `info->dso == dso`, `curtls` is `info->curtls`, 0 for NULL, and `got` is
-- `dynamic_info_is_set (dso, DT_PPC_GOT_BIT)`.
module _ (host : ByteOrder) (got same_dso : Bool) (curtls : ℕ) (objects : Objects) where
  abbrev local_tls : Option ℕ
  local_tls = if curtls == 0 || same_dso then none else some 0

  abbrev pub looked_up : Conflict → Option ℕ
  looked_up c = if same_dso && not c.ifunc then none else some (conflict_lookup_value objects c)

  abbrev dtprel_value : Conflict → Option ℕ
  dtprel_value c =
      if same_dso && not c.ifunc || is_lookup c
      then none
      else some (conflict_lookup_value objects c)

  -- The value that the conflict gives, or `none` for an early `return 0`. The argument is what
  -- `prelink_conflict` returns.
  unfoldable pub conflict_value : RelocType → Option Conflict → Option ℕ
  conflict_value dtpmod32 none = local_tls
  conflict_value tprel32 none = local_tls
  conflict_value tprel16 none = local_tls
  conflict_value tprel16_lo none = local_tls
  conflict_value tprel16_hi none = local_tls
  conflict_value tprel16_ha none = local_tls
  conflict_value irelative none = some 0
  conflict_value _ none = none
  conflict_value dtprel32 (some c) = dtprel_value c
  conflict_value dtprel16 (some c) = dtprel_value c
  conflict_value dtprel16_lo (some c) = dtprel_value c
  conflict_value dtprel16_hi (some c) = dtprel_value c
  conflict_value dtprel16_ha (some c) = dtprel_value c
  conflict_value _ (some c) = looked_up c

  -- A word of thread-local storage: a conflict must be of that class, and with none the block is
  -- that of the library itself.
  abbrev tls_rela : RelocType → Rela → Option Conflict → (ℕ → ℕ) → Verdict
  tls_rela t rela none value_at = plain_rela t rela none (value_at curtls)
  tls_rela t rela (some c) value_at =
      if not (c.reloc_class == rtype_class_tls) || c.lookup == 0
      then failed
      else plain_rela t rela (some c) (value_at c.lookup)

  -- `tls->offset - 0x7000`.
  abbrev tprel_of : ℕ → ℕ
  tprel_of t = sub64 (objects.tls_of t).offset 0x7000

  -- `value` is with the addend. In ADDR14_BRTAKEN and ADDR14_BRNTAKEN, `r_type` is compared after it
  -- has been set to R_PPC_ADDR32.
  unfoldable pub conflict_rela : RelocType → Rela → Option Conflict → ℕ → M Verdict
  conflict_rela glob_dat rela c value = pure (word_rela addr32 rela c value)
  conflict_rela addr32 rela c value = pure (word_rela addr32 rela c value)
  conflict_rela uaddr32 rela c value = pure (word_rela uaddr32 rela c value)
  conflict_rela irelative rela c value = pure (word_rela irelative rela c value)
  conflict_rela jmp_slot rela c value =
      pure (if got then word_rela addr32 rela c value else plain_rela jmp_slot rela c value)
  conflict_rela addr16_ha rela c value =
      pure (plain_rela addr16 rela c (sign_16 (high_adjusted value)))
  conflict_rela addr16_hi rela c value = pure (plain_rela addr16 rela c (sign_16 (value >>> 16)))
  conflict_rela addr16 rela c value = pure (plain_rela addr16 rela c (sign_16 value))
  conflict_rela uaddr16 rela c value = pure (plain_rela uaddr16 rela c (sign_16 value))
  conflict_rela addr16_lo rela c value = pure (plain_rela addr16 rela c (sign_16 value))
  conflict_rela addr24 rela c value = field_rela host rela c (field_24 value)
  conflict_rela addr14 rela c value = field_rela host rela c (field_14 value)
  conflict_rela addr14_brtaken rela c value =
      let r_type = number_of addr32 in
      field_rela host rela c (field_14_predicted (r_type == number_of addr14_brtaken) value)
  conflict_rela addr14_brntaken rela c value =
      let r_type = number_of addr32 in
      field_rela host rela c (field_14_predicted (r_type == number_of addr14_brtaken) value)
  conflict_rela rel24 rela c value = field_rela host rela c (field_24 (sub64 value rela.r_offset))
  conflict_rela rel32 rela c value = pure (plain_rela addr32 rela c (sub64 value rela.r_offset))
  conflict_rela dtpmod32 rela c value =
      pure (tls_rela addr32 rela c (λ t. (objects.tls_of t).modid))
  conflict_rela dtprel32 rela c value = pure (tls_rela addr32 rela c (λ t. sub64 value 0x8000))
  conflict_rela dtprel16 rela c value =
      pure (tls_rela addr16 rela c (λ t. sign_16 (sub64 value 0x8000)))
  conflict_rela dtprel16_lo rela c value =
      pure (tls_rela addr16 rela c (λ t. sign_16 (sub64 value 0x8000)))
  conflict_rela dtprel16_hi rela c value =
      pure (tls_rela addr16 rela c (λ t. sign_16 (sub64 value 0x8000 >>> 16)))
  conflict_rela dtprel16_ha rela c value =
      pure (tls_rela addr16 rela c (λ t. sign_16 (value >>> 16)))
  conflict_rela tprel32 rela c value = pure (tls_rela addr32 rela c (λ t. add64 value (tprel_of t)))
  conflict_rela tprel16 rela c value =
      pure (tls_rela addr16 rela c (λ t. sign_16 (add64 value (tprel_of t))))
  conflict_rela tprel16_lo rela c value =
      pure (tls_rela addr16 rela c (λ t. sign_16 (add64 value (tprel_of t))))
  conflict_rela tprel16_hi rela c value =
      pure (tls_rela addr16 rela c (λ t. sign_16 (add64 value (tprel_of t) >>> 16)))
  conflict_rela tprel16_ha rela c value =
      pure (tls_rela addr16 rela c (λ t. sign_16 (high_adjusted (add64 value (tprel_of t)))))
  conflict_rela none_ rela c value = pure failed
  conflict_rela copy rela c value = pure failed
  conflict_rela relative rela c value = pure failed
  conflict_rela (unknown _) rela c value = pure failed

  unfoldable pub conflict_type : RelocType → Rela → Option Conflict → M Verdict
  unfolding conflict_value conflict_rela
  conflict_type relative rela c = pure nothing
  conflict_type none_ rela c = pure nothing
  conflict_type t rela c = elim (conflict_value t c) [
    | none ↦ pure nothing
    | some value ↦ conflict_rela t rela c (add64 value rela.r_addend)
  ]

  unfoldable pub prelink_conflict_rela : Rela → Option Conflict → M Verdict
  unfolding conflict_type
  prelink_conflict_rela rela c = conflict_type (type_of (gelf_r_type rela.r_info)) rela c
