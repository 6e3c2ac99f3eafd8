-- ===== src/X86_64/Adjust.antt =====
-- x86_64_adjust_dyn and x86_64_adjust_rela: what `adjust_dso` leaves to the architecture when the
-- addresses from `start` on move by `adjust`.
pub mod Relative
use prelink_cross.Base.{
  ℕ, Bool, true, false, ◌&&◌, not, Option, none, some, List, [], ◌∷◌, drop, leb, ◌==◌,
  if◌then◌else◌, get_elem?, add64,
}
use prelink_cross.Bytes.{ByteOrder, lsb, w64}
use prelink_cross.Dso.{Dso, Shdr, sht_progbits, addr_to_sec}
use prelink_cross.Data.{M, ◌>>=◌, ◌>>◌, pure, read_u, write}
use prelink_cross.Reloc.{Rela, gelf_r_type}
use prelink_cross.X86_64.{
  relative, irelative, jump_slot, type_of, read_uleclass, write_leclass, same_name, plt_name,
}

abbrev pub dt_pltgot : ℕ
dt_pltgot = 3

-- `GElf_Dyn`.
pub record Dyn : Type 0 where
  pub d_tag : ℕ
  pub d_ptr : ℕ

-- Some section of the list is the PROGBITS section .plt and lies 0x16 below `data`.
unfoldable pub has_plt_below : List Shdr → ℕ → Bool
has_plt_below [] data' = false
has_plt_below (s ∷ l) data' =
    if data' == add64 s.sh_addr 0x16 && s.sh_type == sht_progbits && same_name s.name plt_name
    then true
    else has_plt_below l data'

module _ (host : ByteOrder) where
  -- The address of section `n`, which is .dynamic.
  abbrev addr_of : Dso → ℕ → Option ℕ
  addr_of d n = elim (get_elem? d.shdr n) [ none ↦ none | some s ↦ some s.sh_addr ]

  abbrev adjust_got0 : ℕ → ℕ → ℕ → ℕ → M Bool
  adjust_got0 n ptr start adjust = do
    word ← read_u host lsb w64 ptr
    λ d. elim (addr_of d n) [
      | none ↦ none
      | some dynamic ↦
          if word == dynamic && leb start word
          then write host lsb w64 ptr (add64 word adjust) d
          else pure true d
    ]

  abbrev adjust_got1 : ℕ → ℕ → ℕ → M Bool
  adjust_got1 ptr start adjust = do
    word ← read_u host lsb w64 (add64 ptr 8)
    λ d.
        if not (word == 0) && leb start word && has_plt_below (drop 1 d.shdr) word
        then write host lsb w64 (add64 ptr 8) (add64 word adjust) d
        else pure true d

  -- It returns 0 always.
  unfoldable pub adjust_dyn : ℕ → Dyn → ℕ → ℕ → M (Unit {0})
  adjust_dyn n dyn start adjust d =
      let (sec, d') = addr_to_sec d dyn.d_ptr in
      if dyn.d_tag == dt_pltgot
      then elim sec [
        | none ↦ pure tt d'
        | some _ ↦
            (adjust_got0 n dyn.d_ptr start adjust >> adjust_got1 dyn.d_ptr start adjust >> pure tt)
              d'
      ]
      else pure tt d

  -- The word at a relocation that holds an address of the object.
  abbrev adjust_word : Rela → ℕ → ℕ → M Bool
  adjust_word rela start adjust = do
    addr ← read_uleclass host rela.r_offset
    if leb start addr then write_leclass host rela.r_offset (add64 addr adjust) else pure true

  abbrev adjust_addend : Rela → ℕ → Rela
  adjust_addend rela adjust = record rela { r_addend = add64 rela.r_addend adjust }

  -- The case R_X86_64_RELATIVE: the word is moved with the addend if it equals it.
  abbrev adjust_equal_word : Rela → ℕ → M Bool
  adjust_equal_word rela adjust = do
    word ← read_uleclass host rela.r_offset
    if word == rela.r_addend
        then write_leclass host rela.r_offset (add64 rela.r_addend adjust)
        else pure true

  abbrev adjust_relative : Rela → ℕ → ℕ → M Rela
  adjust_relative rela start adjust =
      if leb start rela.r_addend
      then adjust_equal_word rela adjust >> pure (adjust_addend rela adjust)
      else pure rela

  -- The relocation as it is left; the function returns 0 always. IRELATIVE falls through.
  unfoldable pub adjust_rela : Rela → ℕ → ℕ → M Rela
  adjust_rela rela start adjust = elim (type_of (gelf_r_type rela.r_info)) [
    | relative ↦ adjust_relative rela start adjust
    | irelative ↦
        (adjust_word rela start adjust
          >> pure (if leb start rela.r_addend then adjust_addend rela adjust else rela))
    | jump_slot ↦ (adjust_word rela start adjust >> pure rela)
    | _ ↦ pure rela
  ]
