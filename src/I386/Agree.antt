-- ===== src/I386/Agree.antt =====
-- A relocation with its addend in the word and the one that i386_rel_to_rela makes of it.
use prelink_cross.Base.{
  ℕ, ◌^◌, ◌<◌, ◌≡◌, refl, sym, subst, ap, ◌∙◌, Option, none, some, List, arith, Option-cases, inl,
  inr, add64, u32,
}
use prelink_cross.Bytes.{ByteOrder, lsb}
use prelink_cross.Dso.{Dso}
use prelink_cross.Reloc.{Rel, Rela, gelf_r_type}
use prelink_cross.X86_64.Prelink.{Resolved, of_write}
use prelink_cross.I386.{
  RelocType, none_, r32, pc32, copy, glob_dat, jmp_slot, relative, tls_tpoff, dtpmod32, dtpoff32,
  tpoff32, irelative, unknown, type_of, sword, read_ule32,
}
use prelink_cross.I386.Prelink.{value_of, apply_rel_type, apply_rel, apply_rela_type, apply_rela}
use prelink_cross.I386.Words.{buf_write-low32, sum-sword, difference-sword}
use prelink_cross.I386.Convert.{with_addend, word_addend, rel_to_rela_type, rel_to_rela}

-- The result alone, without the object.
abbrev pub result_of : {A : Type 0} → Option (A × Dso) → Option A
result_of none = none
result_of (some (a, d)) = some a

module _ (host : ByteOrder) (resolve : ℕ → ℕ → Resolved) (rel : Rel) (buf : List ℕ) (d : Dso) where
  -- Applying the relocation gives what applying the made one gives.
  abbrev Agrees : RelocType → Option (Rela × Dso) → Type 0
  Agrees t none = Unit
  Agrees t (some (rela, d')) =
      (rela.r_info ≡ rel.r_info)
      × (result_of (apply_rel_type host resolve t rel buf d)
          ≡ some (apply_rela_type resolve t rela buf))

  word_Agrees :
      (t : RelocType)
      → ((word : ℕ) (d' : Dso)
          → read_ule32 host rel.r_offset d ≡ some (word, d')
          → Agrees t (some (with_addend rel (sword word), d')))
      → Agrees t (word_addend host rel d)
  word_Agrees t h = elim (Option-cases (read_ule32 host rel.r_offset d)) [
    | inl e ↦ rw (Agrees, e) tt
    | inr ((word, d'), e) ↦ rw (Agrees, e) (h word d' e)
  ]

  module _ (fits : value_of resolve rel.r_info < 2 ^ 64) (off : rel.r_offset < 2 ^ 64) where
    no_addend : u32 (value_of resolve rel.r_info) ≡ u32 (add64 (value_of resolve rel.r_info) 0)
    no_addend = omega arith

    rel_to_rela_type-Agrees :
        (t : RelocType) (unset : ℕ) → Agrees t (rel_to_rela_type host t rel unset d)
    unfolding rel_to_rela_type apply_rel_type apply_rela_type
    rel_to_rela_type-Agrees none_ unset = (refl, refl)
    rel_to_rela_type-Agrees copy unset = (refl, refl)
    rel_to_rela_type-Agrees jmp_slot unset = tt
    rel_to_rela_type-Agrees glob_dat unset =
        (refl, ap (λ o. some (of_write o)) (buf_write-low32 lsb buf _ _ no_addend))
    rel_to_rela_type-Agrees r32 unset = word_Agrees r32 (λ word d' e. (
      refl,
      rw (result_of, e)
          (ap (λ o. some (of_write o)) (buf_write-low32 lsb buf _ _ (sum-sword _ word))),
    ))
    rel_to_rela_type-Agrees pc32 unset = word_Agrees pc32 (λ word d' e. (
      refl,
      rw (result_of, e)
          (ap (λ o. some (of_write o))
            (buf_write-low32 lsb buf _ _ (difference-sword _ word _ off))),
    ))
    rel_to_rela_type-Agrees relative unset = word_Agrees relative (λ word d' e. (refl, refl))
    rel_to_rela_type-Agrees irelative unset = word_Agrees irelative (λ word d' e. (refl, refl))
    rel_to_rela_type-Agrees tpoff32 unset = word_Agrees tpoff32 (λ word d' e. (refl, refl))
    rel_to_rela_type-Agrees tls_tpoff unset = word_Agrees tls_tpoff (λ word d' e. (refl, refl))
    rel_to_rela_type-Agrees dtpmod32 unset = (refl, refl)
    rel_to_rela_type-Agrees dtpoff32 unset = (refl, refl)
    rel_to_rela_type-Agrees (unknown n) unset = (refl, refl)

-- Where i386_rel_to_rela makes a relocation that keeps its addend beside the word, applying that
-- one to a copy of memory gives the same bytes, error or abort as applying the one that it was made
-- of, provided that the symbol's value and the offset are 64-bit words.
pub apply_rel-apply_rela :
    (host : ByteOrder) (resolve : ℕ → ℕ → Resolved) (rel : Rel) (unset : ℕ) (buf : List ℕ)
    (d d' : Dso) (rela : Rela)
    → value_of resolve rel.r_info < 2 ^ 64
    → rel.r_offset < 2 ^ 64
    → rel_to_rela host rel unset d ≡ some (rela, d')
    → result_of (apply_rel host resolve rel buf d) ≡ some (apply_rela resolve rela buf)
unfolding rel_to_rela apply_rel apply_rela
apply_rel-apply_rela host resolve rel unset buf d d' rela fits off e =
    let t = type_of (gelf_r_type rel.r_info) in
    let (same, agree) =
      subst (Agrees host resolve rel buf d t) e
        (rel_to_rela_type-Agrees host resolve rel buf d fits off t unset) in
    agree ∙ ap (λ n. some (apply_rela_type resolve (type_of (gelf_r_type n)) rela buf)) (sym same)
