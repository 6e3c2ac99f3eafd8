-- ===== src/I386/Prelink.antt =====
-- i386_prelink_rel and i386_prelink_rela, which relocate an object in place, i386_apply_rel and
-- i386_apply_rela, which do so in a copy of a part of it, and i386_apply_conflict_rela.
use prelink_cross.Base.{
  ℕ, Bool, true, false, not, none, some, List, [], ◌∷◌, ◌==◌, if◌then◌else◌, add64, sub64,
}
use prelink_cross.Bytes.{ByteOrder, lsb, w32, buf_write_ne}
use prelink_cross.Data.{M, ◌>>=◌, ◌>>◌, pure}
use prelink_cross.Reloc.{Rel, Rela, gelf_r_sym, gelf_r_type, gelf_r_info}
use prelink_cross.X86_64.Prelink.{
  Resolved, target, et_exec, Applied, done, failed, aborts, of_write,
}
use prelink_cross.I386.{
  RelocType, none_, r32, pc32, copy, glob_dat, jmp_slot, relative, tls_tpoff, dtpmod32, dtpoff32,
  tpoff32, irelative, unknown, type_of, read_ule32, write_le32,
}

-- What i386_prelink_rel returns: 0, 1 after a message, or 2 with the relocation that it changed.
pub data Outcome : Type 0 where
  kept : Outcome
  failed_ : Outcome
  changed : Rel → Outcome

abbrev pub value_of : (ℕ → ℕ → Resolved) → ℕ → ℕ
value_of resolve r_info = (resolve (gelf_r_sym r_info) (gelf_r_type r_info)).value

module _ (host : ByteOrder) (resolve : ℕ → ℕ → Resolved) where
  -- The case R_386_32.
  abbrev prelink_word : Rel → M Outcome
  prelink_word rel = do
    word ← read_ule32 host rel.r_offset
    if word == 0
        then write_le32 host rel.r_offset (value_of resolve rel.r_info)
          >> pure (
              changed (record {
                r_offset = rel.r_offset;
                r_info = gelf_r_info (gelf_r_sym rel.r_info) 6;
              }))
        else pure failed_

  unfoldable pub prelink_rel_type : RelocType → Rel → M Outcome
  prelink_rel_type none_ rel = pure kept
  prelink_rel_type relative rel = pure kept
  prelink_rel_type irelative rel = pure kept
  prelink_rel_type glob_dat rel =
      write_le32 host rel.r_offset (value_of resolve rel.r_info) >> pure kept
  prelink_rel_type jmp_slot rel =
      write_le32 host rel.r_offset (value_of resolve rel.r_info) >> pure kept
  prelink_rel_type r32 rel = prelink_word rel
  prelink_rel_type pc32 rel = pure failed_
  prelink_rel_type dtpoff32 rel =
      write_le32 host rel.r_offset (value_of resolve rel.r_info) >> pure kept
  prelink_rel_type dtpmod32 rel = λ d. pure (if d.e_type == et_exec then failed_ else kept) d
  prelink_rel_type tpoff32 rel = pure kept
  prelink_rel_type tls_tpoff rel = pure kept
  prelink_rel_type copy rel = λ d. pure (if d.e_type == et_exec then kept else failed_) d
  prelink_rel_type (unknown _) rel = pure failed_

  unfoldable pub prelink_rel : Rel → M Outcome
  unfolding prelink_rel_type
  prelink_rel rel = prelink_rel_type (type_of (gelf_r_type rel.r_info)) rel

  -- A word that depends on the offset of the symbol's block, in an executable.
  abbrev prelink_tpoff : Rela → (ℕ → ℕ) → M Bool
  prelink_tpoff rela word_at d =
      let tls = (resolve (gelf_r_sym rela.r_info) (gelf_r_type rela.r_info)).resolvetls in
      if d.e_type == et_exec
      then elim tls [
        | none ↦ pure true d
        | some t ↦ (write_le32 host rela.r_offset (word_at t.offset) >> pure true) d
      ]
      else pure true d

  -- 0 is `true`, and 1, after a message, is `false`.
  unfoldable pub prelink_rela_type : RelocType → Rela → M Bool
  prelink_rela_type none_ rela = pure true
  prelink_rela_type relative rela = pure true
  prelink_rela_type irelative rela = pure true
  prelink_rela_type glob_dat rela = write_le32 host rela.r_offset (target resolve rela) >> pure true
  prelink_rela_type jmp_slot rela = write_le32 host rela.r_offset (target resolve rela) >> pure true
  prelink_rela_type r32 rela = write_le32 host rela.r_offset (target resolve rela) >> pure true
  prelink_rela_type pc32 rela =
      write_le32 host rela.r_offset (sub64 (target resolve rela) rela.r_offset) >> pure true
  prelink_rela_type dtpoff32 rela = write_le32 host rela.r_offset (target resolve rela) >> pure true
  prelink_rela_type dtpmod32 rela = λ d. pure (not (d.e_type == et_exec)) d
  prelink_rela_type tpoff32 rela =
      prelink_tpoff rela (λ offset. sub64 0 (sub64 (target resolve rela) offset))
  prelink_rela_type tls_tpoff rela =
      prelink_tpoff rela (λ offset. sub64 (target resolve rela) offset)
  prelink_rela_type copy rela = λ d. pure (d.e_type == et_exec) d
  prelink_rela_type (unknown _) rela = pure false

  unfoldable pub prelink_rela : Rela → M Bool
  unfolding prelink_rela_type
  prelink_rela rela = prelink_rela_type (type_of (gelf_r_type rela.r_info)) rela

  -- The word of a REL relocation is read in the object, not in the copy.
  unfoldable pub apply_rel_type : RelocType → Rel → List ℕ → M Applied
  apply_rel_type none_ rel buf = pure (done buf)
  apply_rel_type glob_dat rel buf =
      pure (of_write (buf_write_ne lsb w32 buf (value_of resolve rel.r_info)))
  apply_rel_type jmp_slot rel buf =
      pure (of_write (buf_write_ne lsb w32 buf (value_of resolve rel.r_info)))
  apply_rel_type r32 rel buf = do
    word ← read_ule32 host rel.r_offset
    pure (of_write (buf_write_ne lsb w32 buf (add64 (value_of resolve rel.r_info) word)))
  apply_rel_type pc32 rel buf = do
    word ← read_ule32 host rel.r_offset
    pure (
        of_write (
          buf_write_ne lsb w32 buf (sub64 (add64 (value_of resolve rel.r_info) word) rel.r_offset)))
  apply_rel_type copy rel buf = pure aborts
  apply_rel_type _ rel buf = pure (failed 1)

  unfoldable pub apply_rel : Rel → List ℕ → M Applied
  unfolding apply_rel_type
  apply_rel rel buf = apply_rel_type (type_of (gelf_r_type rel.r_info)) rel buf

module _ (resolve : ℕ → ℕ → Resolved) where
  unfoldable pub apply_rela_type : RelocType → Rela → List ℕ → Applied
  apply_rela_type none_ rela buf = done buf
  apply_rela_type glob_dat rela buf = of_write (buf_write_ne lsb w32 buf (target resolve rela))
  apply_rela_type jmp_slot rela buf = of_write (buf_write_ne lsb w32 buf (target resolve rela))
  apply_rela_type r32 rela buf = of_write (buf_write_ne lsb w32 buf (target resolve rela))
  apply_rela_type pc32 rela buf =
      of_write (buf_write_ne lsb w32 buf (sub64 (target resolve rela) rela.r_offset))
  apply_rela_type copy rela buf = aborts
  apply_rela_type _ rela buf = failed 1

  unfoldable pub apply_rela : Rela → List ℕ → Applied
  unfolding apply_rela_type
  apply_rela rela buf = apply_rela_type (type_of (gelf_r_type rela.r_info)) rela buf

-- The conflict that `prelink_conflict_add_rela` adds is returned with the result; `grows` says that
-- its `realloc`, where one is called, succeeds.
unfoldable pub apply_conflict_rela : Bool → Rela → List ℕ → ℕ → Applied × List Rela
apply_conflict_rela grows rela buf dest_addr = elim (type_of (gelf_r_type rela.r_info)) [
  | glob_dat ↦ (of_write (buf_write_ne lsb w32 buf rela.r_addend), [])
  | jmp_slot ↦ (of_write (buf_write_ne lsb w32 buf rela.r_addend), [])
  | r32 ↦ (of_write (buf_write_ne lsb w32 buf rela.r_addend), [])
  | irelative ↦
      if dest_addr == 0
      then (failed 5, [])
      else if grows
      then (
        done buf,
        record { r_offset = dest_addr; r_info = gelf_r_info 0 42; r_addend = rela.r_addend } ∷ [],
      )
      else (failed 1, [])
  | _ ↦ (aborts, [])
]
