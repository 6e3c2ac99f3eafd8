-- ===== src/I386/RoundTrip.antt =====
-- An addend that i386_rela_to_rel puts into the word comes back with i386_rel_to_rela.
use prelink_cross.Base.{ℕ, ◌≡◌, refl, sym, ap, ◌∙◌, true, some, arith, u32}
use prelink_cross.Bytes.{ByteOrder, lsb, w32}
use prelink_cross.Dso.{Dso}
use prelink_cross.Data.ReadWrite.{read_u-write}
use prelink_cross.Reloc.{Rela, gelf_r_type}
use prelink_cross.I386.{
  RelocType, none_, copy, glob_dat, jmp_slot, dtpmod32, dtpoff32, unknown, type_of, sword,
  read_ule32, write_le32,
}
use prelink_cross.I386.Words.{write-low32, sword-u32}
use prelink_cross.I386.Convert.{
  with_addend, without_addend, word_addend, put_word, rel_to_rela_type, rel_to_rela,
  rela_to_rel_type, rela_to_rel,
}

-- The addends that a word of 32 bits can hold for a type: none of R_386_JMP_SLOT, where both
-- functions abort, nor of the types that they do not know.
abbrev pub HasWord : RelocType → ℕ → Type 0
HasWord none_ addend = ⊥
HasWord jmp_slot addend = ⊥
HasWord (unknown _) addend = ⊥
HasWord copy addend = addend ≡ 0
HasWord glob_dat addend = addend ≡ 0
HasWord dtpmod32 addend = addend ≡ 0
HasWord dtpoff32 addend = addend ≡ 0
HasWord _ addend = sword addend ≡ addend

module _ (host : ByteOrder) (rela : Rela) (unset : ℕ) (d d' : Dso)
    (stored : write_le32 host rela.r_offset rela.r_addend d ≡ some (true, d')) where
  -- Out into the word and back from it.
  abbrev Returns : RelocType → Type 0
  Returns t =
      (rela_to_rel_type host t rela d ≡ some (without_addend rela, d'))
      × (rel_to_rela_type host t (without_addend rela) unset d' ≡ some (rela, d'))

  word_back : read_ule32 host rela.r_offset d' ≡ some (u32 rela.r_addend, d')
  word_back =
      (read_u-write host lsb w32 d rela.r_offset (u32 rela.r_addend) d' (omega arith) (
        write-low32 host lsb rela.r_offset (u32 rela.r_addend) rela.r_addend d (omega arith)
        ∙ stored)).0

  word_out : put_word host rela rela.r_addend d ≡ some (without_addend rela, d')
  word_out = ground (arith, stored)

  zero_out : rela.r_addend ≡ 0 → put_word host rela 0 d ≡ some (without_addend rela, d')
  zero_out e = rw (sym e) word_out

  zero_in : rela.r_addend ≡ 0 → with_addend (without_addend rela) 0 ≡ rela
  zero_in e = rw (sym e) refl

  word_in :
      sword rela.r_addend ≡ rela.r_addend
      → word_addend host (without_addend rela) d' ≡ some (rela, d')
  word_in e = ground (
    arith,
    word_back,
    ap (λ x. with_addend (without_addend rela) x) (sword-u32 rela.r_addend ∙ e),
  )

  rela_to_rel_type-Returns : (t : RelocType) → HasWord t rela.r_addend → Returns t
  unfolding rela_to_rel_type rel_to_rela_type
  rela_to_rel_type-Returns none_ h = absurd h
  rela_to_rel_type-Returns jmp_slot h = absurd h
  rela_to_rel_type-Returns (unknown n) h = absurd h
  rela_to_rel_type-Returns copy h = (zero_out h, ap (λ r. some (r, d')) (zero_in h))
  rela_to_rel_type-Returns glob_dat h = (zero_out h, ap (λ r. some (r, d')) (zero_in h))
  rela_to_rel_type-Returns dtpmod32 h = (zero_out h, ap (λ r. some (r, d')) (zero_in h))
  rela_to_rel_type-Returns dtpoff32 h = (zero_out h, ap (λ r. some (r, d')) (zero_in h))
  rela_to_rel_type-Returns _ h = (word_out, word_in h)

-- Where the word of a relocation can be written and holds its addend, and the type is not
-- R_386_JMP_SLOT, R_386_NONE or an unknown one, i386_rela_to_rel stores the addend there, and
-- i386_rel_to_rela then makes the same relocation again.
pub rel_to_rela-rela_to_rel :
    (host : ByteOrder) (rela : Rela) (unset : ℕ) (d d' : Dso)
    → HasWord (type_of (gelf_r_type rela.r_info)) rela.r_addend
    → write_le32 host rela.r_offset rela.r_addend d ≡ some (true, d')
    → (rela_to_rel host rela d ≡ some (without_addend rela, d'))
      × (rel_to_rela host (without_addend rela) unset d' ≡ some (rela, d'))
unfolding rela_to_rel rel_to_rela
rel_to_rela-rela_to_rel host rela unset d d' h stored =
    rela_to_rel_type-Returns host rela unset d d' stored (type_of (gelf_r_type rela.r_info)) h
