-- ===== src/I386/Convert.antt =====
-- i386_rel_to_rela and i386_rela_to_rel, which move the addends out of the words and back, and
-- i386_need_rel_to_rela, which says whether they have to be. An abort is `none`.
use prelink_cross.Base.{
  ℕ, zero, suc, ◌+◌, ◌-◌, ◌/◌, ◌%◌, ◌^◌, Bool, true, false, none, some, List, [], ◌∷◌, take, drop,
  ◌==◌, if◌then◌else◌,
}
use prelink_cross.Bytes.{ByteOrder, w32, buf_read_une}
use prelink_cross.Dso.{Block}
use prelink_cross.Data.{M, ◌>>=◌, ◌>>◌, pure}
use prelink_cross.Reloc.{Rel, Rela, gelf_r_type}
use prelink_cross.X86_64.Prelink.{et_exec}
use prelink_cross.I386.{
  RelocType, r32, pc32, copy, glob_dat, jmp_slot, relative, tls_tpoff, dtpmod32, dtpoff32, tpoff32,
  irelative, type_of, sword, read_ule32, write_le32,
}

abbrev pub with_addend : Rel → ℕ → Rela
with_addend rel addend = record { r_offset = rel.r_offset; r_info = rel.r_info; r_addend = addend }

abbrev pub without_addend : Rela → Rel
without_addend rela = record { r_offset = rela.r_offset; r_info = rela.r_info }

module _ (host : ByteOrder) where
  abbrev pub word_addend : Rel → M Rela
  word_addend rel = do word ← read_ule32 host rel.r_offset; pure (with_addend rel (sword word))

  -- `unset` is the addend that `*rela` has before.
  unfoldable pub rel_to_rela_type : RelocType → Rel → ℕ → M Rela
  rel_to_rela_type jmp_slot rel unset = λ d. none
  rel_to_rela_type relative rel unset = word_addend rel
  rel_to_rela_type irelative rel unset = word_addend rel
  rel_to_rela_type r32 rel unset = word_addend rel
  rel_to_rela_type pc32 rel unset = word_addend rel
  rel_to_rela_type tpoff32 rel unset = word_addend rel
  rel_to_rela_type tls_tpoff rel unset = word_addend rel
  rel_to_rela_type copy rel unset = pure (with_addend rel 0)
  rel_to_rela_type glob_dat rel unset = pure (with_addend rel 0)
  rel_to_rela_type dtpoff32 rel unset = pure (with_addend rel 0)
  rel_to_rela_type dtpmod32 rel unset = pure (with_addend rel 0)
  rel_to_rela_type _ rel unset = pure (with_addend rel unset)

  unfoldable pub rel_to_rela : Rel → ℕ → M Rela
  unfolding rel_to_rela_type
  rel_to_rela rel unset = rel_to_rela_type (type_of (gelf_r_type rel.r_info)) rel unset

  abbrev pub put_word : Rela → ℕ → M Rel
  put_word rela word = write_le32 host rela.r_offset word >> pure (without_addend rela)

  unfoldable pub rela_to_rel_type : RelocType → Rela → M Rel
  rela_to_rel_type jmp_slot rela = λ d. none
  rela_to_rel_type relative rela = put_word rela rela.r_addend
  rela_to_rel_type irelative rela = put_word rela rela.r_addend
  rela_to_rel_type r32 rela = put_word rela rela.r_addend
  rela_to_rel_type pc32 rela = put_word rela rela.r_addend
  rela_to_rel_type tpoff32 rela = put_word rela rela.r_addend
  rela_to_rel_type tls_tpoff rela = put_word rela rela.r_addend
  rela_to_rel_type copy rela = put_word rela 0
  rela_to_rel_type glob_dat rela = put_word rela 0
  rela_to_rel_type dtpmod32 rela = put_word rela 0
  rela_to_rel_type dtpoff32 rela = put_word rela 0
  rela_to_rel_type _ rela = pure (without_addend rela)

  unfoldable pub rela_to_rel : Rela → M Rel
  unfolding rela_to_rel_type
  rela_to_rel rela = rela_to_rel_type (type_of (gelf_r_type rela.r_info)) rela

  -- The `switch` of i386_need_rel_to_rela: whether it returns 1.
  unfoldable pub needs_rela : RelocType → ℕ → M Bool
  needs_rela r32 r_offset = do
    val ← read_ule32 host r_offset
    pure (if val == 0 then false else true)
  needs_rela pc32 r_offset = pure true
  needs_rela tpoff32 r_offset = λ d. pure (d.e_type == et_exec) d
  needs_rela tls_tpoff r_offset = λ d. pure (d.e_type == et_exec) d
  needs_rela _ r_offset = pure false

  -- That many `Elf32_Rel`, which libelf has converted to the order of the host. ELF32_R_TYPE is the
  -- low byte.
  unfoldable pub rels_need_rela : ℕ → List ℕ → M Bool
  rels_need_rela zero buf = pure false
  rels_need_rela (suc n) buf =
      let rest = rels_need_rela n (drop 8 buf) in
      elim (buf_read_une host w32 buf) [
        | none ↦ λ d. none
        | some r_offset ↦ elim (buf_read_une host w32 (drop 4 buf)) [
          | none ↦ λ d. none
          | some r_info ↦ needs_rela (type_of (r_info % 2 ^ 8)) r_offset >>= λ need.
              if need then pure true else rest
        ]
      ]

  unfoldable pub blocks_need_rela : List Block → M Bool
  blocks_need_rela [] = pure false
  blocks_need_rela (b ∷ l) =
      let rest = blocks_need_rela l in
      rels_need_rela (b.d_size / 8) b.d_buf >>= λ need. if need then pure true else rest

  unfoldable pub sections_need_rela : List (List Block) → M Bool
  sections_need_rela [] = pure false
  sections_need_rela (blocks ∷ l) =
      let rest = sections_need_rela l in
      blocks_need_rela blocks >>= λ need. if need then pure true else rest

  unfoldable pub need_rel_to_rela : ℕ → ℕ → M Bool
  need_rel_to_rela first last d = sections_need_rela (take (last + 1 - first) (drop first d.scn)) d
