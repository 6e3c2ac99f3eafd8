-- ===== src/Ppc/Prelink.antt =====
-- ppc_prelink_rela, which relocates an object in place, ppc_apply_rela, which does so in a copy of
-- a part of it, and ppc_apply_conflict_rela. The functions on REL relocations only fail.
use prelink_cross.Base.{
  ℕ, Bool, true, false, not, none, some, List, [], ◌∷◌, ◌==◌, if◌then◌else◌, add64, sub64, ◌>>>◌,
}
use prelink_cross.Bytes.{ByteOrder, msb, w16, w32, buf_read_une, buf_write_ne}
use prelink_cross.Data.{M, ◌>>=◌, ◌>>◌, pure}
use prelink_cross.Reloc.{Rela, gelf_r_sym, gelf_r_type, gelf_r_info}
use prelink_cross.RelocSections.{Dynamic}
use prelink_cross.X86_64.Prelink.{
  Resolved, target, et_exec, Applied, done, failed, aborts, of_write,
}
use prelink_cross.Ppc.{
  RelocType, none_, addr32, addr24, addr16, addr16_lo, addr16_hi, addr16_ha, addr14, addr14_brtaken,
  addr14_brntaken, rel24, copy, glob_dat, jmp_slot, relative, uaddr32, uaddr16, rel32, dtpmod32,
  tprel16, tprel16_lo, tprel16_hi, tprel16_ha, tprel32, dtprel16, dtprel16_lo, dtprel16_hi,
  dtprel16_ha, dtprel32, irelative, unknown, type_of, number_of,
}
use prelink_cross.Ppc.Words.{
  read_ube32, write_be32, write_be16, high_adjusted, field_24, field_14, field_14_predicted,
}
use prelink_cross.Ppc.Plt.{fixup_plt}

-- `got` is `dynamic_info_is_set (dso, DT_PPC_GOT_BIT)`.
module _ (host : ByteOrder) (got : Bool) (y : Dynamic) (resolve : ℕ → ℕ → Resolved) where
  abbrev store_32 : Rela → ℕ → M Bool
  store_32 rela val = write_be32 host rela.r_offset val >> pure true

  abbrev store_16 : Rela → ℕ → M Bool
  store_16 rela val = write_be16 host rela.r_offset val >> pure true

  -- A field of the word that is there.
  abbrev store_field : Rela → (ℕ → ℕ) → M Bool
  store_field rela field = do word ← read_ube32 host rela.r_offset; store_32 rela (field word)

  -- A word that depends on the offset of the symbol's block, in an executable.
  abbrev store_tprel : Rela → (ℕ → M Bool) → M Bool
  store_tprel rela store d =
      let tls = (resolve (gelf_r_sym rela.r_info) (gelf_r_type rela.r_info)).resolvetls in
      if d.e_type == et_exec
      then elim tls [
        | none ↦ pure true d
        | some t ↦ store (add64 (target resolve rela) (sub64 t.offset 0x7000)) d
      ]
      else pure true d

  -- 0 is `true`, and 1, after a message, is `false`.
  unfoldable pub prelink_type : RelocType → Rela → M Bool
  prelink_type none_ rela = pure true
  prelink_type irelative rela = pure true
  prelink_type relative rela = store_32 rela rela.r_addend
  prelink_type glob_dat rela = store_32 rela (target resolve rela)
  prelink_type addr32 rela = store_32 rela (target resolve rela)
  prelink_type uaddr32 rela = store_32 rela (target resolve rela)
  prelink_type dtprel32 rela = store_32 rela (sub64 (target resolve rela) 0x8000)
  prelink_type jmp_slot rela =
      if got
      then store_32 rela (target resolve rela)
      else fixup_plt host y rela (target resolve rela) >> pure true
  prelink_type addr16 rela = store_16 rela (target resolve rela)
  prelink_type uaddr16 rela = store_16 rela (target resolve rela)
  prelink_type addr16_lo rela = store_16 rela (target resolve rela)
  prelink_type dtprel16 rela = store_16 rela (sub64 (target resolve rela) 0x8000)
  prelink_type dtprel16_lo rela = store_16 rela (sub64 (target resolve rela) 0x8000)
  prelink_type addr16_hi rela = store_16 rela (target resolve rela >>> 16)
  prelink_type dtprel16_ha rela = store_16 rela (target resolve rela >>> 16)
  prelink_type dtprel16_hi rela = store_16 rela (sub64 (target resolve rela) 0x8000 >>> 16)
  prelink_type addr16_ha rela = store_16 rela (high_adjusted (target resolve rela))
  prelink_type addr24 rela = store_field rela (field_24 (target resolve rela))
  prelink_type addr14 rela = store_field rela (field_14 (target resolve rela))
  prelink_type addr14_brtaken rela =
      store_field rela (field_14_predicted true (target resolve rela))
  prelink_type addr14_brntaken rela =
      store_field rela (field_14_predicted false (target resolve rela))
  prelink_type rel24 rela = store_field rela (field_24 (sub64 (target resolve rela) rela.r_offset))
  prelink_type rel32 rela = store_32 rela (sub64 (target resolve rela) rela.r_offset)
  prelink_type dtpmod32 rela = λ d. pure (not (d.e_type == et_exec)) d
  prelink_type tprel32 rela = store_tprel rela (store_32 rela)
  prelink_type tprel16 rela = store_tprel rela (store_16 rela)
  prelink_type tprel16_lo rela = store_tprel rela (store_16 rela)
  prelink_type tprel16_hi rela = store_tprel rela (λ value. store_16 rela (value >>> 16))
  prelink_type tprel16_ha rela = store_tprel rela (λ value. store_16 rela (high_adjusted value))
  prelink_type copy rela = λ d. pure (d.e_type == et_exec) d
  prelink_type (unknown _) rela = pure false

  unfoldable pub prelink_rela : Rela → M Bool
  unfolding prelink_type
  prelink_rela rela = prelink_type (type_of (gelf_r_type rela.r_info)) rela

-- A field of the word that the buffer starts with.
abbrev pub write_field : List ℕ → (ℕ → ℕ) → Applied
write_field buf field = elim (buf_read_une msb w32 buf) [
  | none ↦ aborts
  | some word ↦ of_write (buf_write_ne msb w32 buf (field word))
]

module _ (resolve : ℕ → ℕ → Resolved) where
  unfoldable pub apply_type : RelocType → Rela → List ℕ → Applied
  apply_type none_ rela buf = done buf
  apply_type glob_dat rela buf = of_write (buf_write_ne msb w32 buf (target resolve rela))
  apply_type addr32 rela buf = of_write (buf_write_ne msb w32 buf (target resolve rela))
  apply_type uaddr32 rela buf = of_write (buf_write_ne msb w32 buf (target resolve rela))
  apply_type addr16_ha rela buf =
      of_write (buf_write_ne msb w16 buf (high_adjusted (target resolve rela)))
  apply_type addr16_hi rela buf = of_write (buf_write_ne msb w16 buf (target resolve rela >>> 16))
  apply_type addr16 rela buf = of_write (buf_write_ne msb w16 buf (target resolve rela))
  apply_type uaddr16 rela buf = of_write (buf_write_ne msb w16 buf (target resolve rela))
  apply_type addr16_lo rela buf = of_write (buf_write_ne msb w16 buf (target resolve rela))
  apply_type addr24 rela buf = write_field buf (field_24 (target resolve rela))
  apply_type addr14 rela buf = write_field buf (field_14 (target resolve rela))
  apply_type addr14_brtaken rela buf =
      write_field buf (field_14_predicted true (target resolve rela))
  apply_type addr14_brntaken rela buf =
      write_field buf (field_14_predicted false (target resolve rela))
  apply_type rel24 rela buf = write_field buf (field_24 (sub64 (target resolve rela) rela.r_offset))
  apply_type rel32 rela buf =
      of_write (buf_write_ne msb w32 buf (sub64 (target resolve rela) rela.r_offset))
  apply_type _ rela buf = failed 1

  unfoldable pub apply_rela : Rela → List ℕ → Applied
  unfolding apply_type
  apply_rela rela buf = apply_type (type_of (gelf_r_type rela.r_info)) rela buf

-- The conflict that `prelink_conflict_add_rela` adds is returned with the result; `grows` says that
-- its `realloc`, where one is called, succeeds.
unfoldable pub apply_conflict_rela : Bool → Rela → List ℕ → ℕ → Applied × List Rela
apply_conflict_rela grows rela buf dest_addr = elim (type_of (gelf_r_type rela.r_info)) [
  | addr32 ↦ (of_write (buf_write_ne msb w32 buf rela.r_addend), [])
  | uaddr32 ↦ (of_write (buf_write_ne msb w32 buf rela.r_addend), [])
  | addr16 ↦ (of_write (buf_write_ne msb w16 buf rela.r_addend), [])
  | uaddr16 ↦ (of_write (buf_write_ne msb w16 buf rela.r_addend), [])
  | irelative ↦
      if dest_addr == 0
      then (failed 5, [])
      else if grows
      then (
        done buf,
        record {
          r_offset = dest_addr;
          r_info = gelf_r_info 0 (number_of irelative);
          r_addend = rela.r_addend;
        }
            ∷ [],
      )
      else (failed 1, [])
  | _ ↦ (aborts, [])
]
