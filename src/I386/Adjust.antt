-- ===== src/I386/Adjust.antt =====
-- i386_adjust_dyn, i386_adjust_rel and i386_adjust_rela: what `adjust_dso` leaves to the
-- architecture when the addresses from `start` on move by `adjust`.
use prelink_cross.Base.{
  ℕ, Bool, true, ◌&&◌, not, Option, none, some, drop, leb, ◌==◌, if◌then◌else◌, get_elem?, add64,
  u32,
}
use prelink_cross.Bytes.{ByteOrder}
use prelink_cross.Dso.{Dso, addr_to_sec}
use prelink_cross.Data.{M, ◌>>=◌, ◌>>◌, pure}
use prelink_cross.Reloc.{Rel, Rela, gelf_r_type}
use prelink_cross.X86_64.Adjust.{Dyn, dt_pltgot, has_plt_below}
use prelink_cross.I386.{relative, irelative, jmp_slot, type_of, sword, read_ule32, write_le32}

module _ (host : ByteOrder) where
  -- The address of section `n`, which is .dynamic.
  abbrev addr_of : Dso → ℕ → Option ℕ
  addr_of d n = elim (get_elem? d.shdr n) [ none ↦ none | some s ↦ some s.sh_addr ]

  abbrev adjust_got0 : ℕ → ℕ → ℕ → ℕ → M Bool
  adjust_got0 n ptr start adjust = do
    word ← read_ule32 host ptr
    λ d. elim (addr_of d n) [
      | none ↦ none
      | some dynamic ↦
          if word == dynamic && leb start word
          then write_le32 host ptr (add64 word adjust) d
          else pure true d
    ]

  abbrev adjust_got1 : ℕ → ℕ → ℕ → M Bool
  adjust_got1 ptr start adjust = do
    word ← read_ule32 host (add64 ptr 4)
    λ d.
        if not (word == 0) && leb start word && has_plt_below (drop 1 d.shdr) word
        then write_le32 host (add64 ptr 4) (add64 word adjust) d
        else pure true d

  -- It returns 0 always.
  unfoldable pub adjust_dyn : ℕ → Dyn → ℕ → ℕ → M (Unit {0})
  adjust_dyn n dyn start adjust d =
      let (sec, d') = addr_to_sec d dyn.d_ptr in
      if dyn.d_tag == dt_pltgot
      then elim sec [
        | none ↦ pure tt d'
        | some _ ↦
            (adjust_got0 n dyn.d_ptr start adjust >> adjust_got1 dyn.d_ptr start adjust >> pure tt)
              d'
      ]
      else pure tt d

  -- The word at a relocation that holds an address of the object.
  abbrev adjust_word : ℕ → ℕ → ℕ → M Bool
  adjust_word addr start adjust = do
    word ← read_ule32 host addr
    if leb start word then write_le32 host addr (add64 word adjust) else pure true

  -- The function returns 0 always.
  unfoldable pub adjust_rel : Rel → ℕ → ℕ → M (Unit {0})
  adjust_rel rel start adjust = elim (type_of (gelf_r_type rel.r_info)) [
    | relative ↦ adjust_word rel.r_offset start adjust >> pure tt
    | jmp_slot ↦ adjust_word rel.r_offset start adjust >> pure tt
    | irelative ↦ adjust_word rel.r_offset start adjust >> pure tt
    | _ ↦ pure tt
  ]

  abbrev adjust_addend : Rela → ℕ → Rela
  adjust_addend rela adjust = record rela { r_addend = add64 rela.r_addend (sword adjust) }

  abbrev adjust_relative : Rela → ℕ → ℕ → M Rela
  adjust_relative rela start adjust =
      let moved = adjust_addend rela adjust in
      if leb start (u32 rela.r_addend)
      then write_le32 host rela.r_offset moved.r_addend >> pure moved
      else pure rela

  -- The relocation as it is left; the function returns 0 always.
  unfoldable pub adjust_rela : Rela → ℕ → ℕ → M Rela
  adjust_rela rela start adjust = elim (type_of (gelf_r_type rela.r_info)) [
    | relative ↦ adjust_relative rela start adjust
    | irelative ↦ adjust_relative rela start adjust
    | jmp_slot ↦ (adjust_word rela.r_offset start adjust >> pure rela)
    | _ ↦ pure rela
  ]
