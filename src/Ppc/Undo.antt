-- ===== src/Ppc/Undo.antt =====
-- ppc_undo_prelink_rela and ppc_arch_undo_prelink, which take back what prelinking has stored.
use prelink_cross.Base.{
  ℕ, zero, suc, ◌+◌, ◌/◌, Bool, true, false, not, none, some, List, drop, bit_and, ltb, ◌==◌,
  if◌then◌else◌, add64, u32,
}
use prelink_cross.Bytes.{ByteOrder}
use prelink_cross.Data.{M, ◌>>=◌, ◌>>◌, pure}
use prelink_cross.Reloc.{Rela, gelf_r_type}
use prelink_cross.X86_64.{plt_name}
use prelink_cross.X86_64.Adjust.{Dyn}
use prelink_cross.X86_64.Prelink.{et_exec}
use prelink_cross.Ppc.{
  RelocType, none_, addr32, addr24, addr16, addr16_lo, addr16_hi, addr16_ha, addr14, addr14_brtaken,
  addr14_brntaken, rel24, copy, glob_dat, jmp_slot, relative, uaddr32, uaddr16, rel32, dtpmod32,
  tprel16, tprel16_lo, tprel16_hi, tprel16_ha, tprel32, dtprel16, dtprel16_lo, dtprel16_hi,
  dtprel16_ha, dtprel32, irelative, unknown, type_of,
}
use prelink_cross.Ppc.Words.{read_ube32, write_be32, write_be16}
use prelink_cross.Ppc.Adjust.{named, ppc_got}

module _ (host : ByteOrder) where
  abbrev clear_32 : Rela → M Bool
  clear_32 rela = write_be32 host rela.r_offset 0 >> pure true

  abbrev clear_16 : Rela → M Bool
  clear_16 rela = write_be16 host rela.r_offset 0 >> pure true

  abbrev clear_field : Rela → ℕ → M Bool
  clear_field rela mask = do
    word ← read_ube32 host rela.r_offset
    write_be32 host rela.r_offset (bit_and word mask) >> pure true

  -- 0 is `true`, and 1, after a message, is `false`.
  unfoldable pub undo_type : RelocType → Rela → M Bool
  undo_type none_ rela = pure true
  undo_type relative rela = clear_32 rela
  undo_type glob_dat rela = clear_32 rela
  undo_type addr32 rela = clear_32 rela
  undo_type uaddr32 rela = clear_32 rela
  undo_type rel32 rela = clear_32 rela
  undo_type dtpmod32 rela = clear_32 rela
  undo_type dtprel32 rela = clear_32 rela
  undo_type tprel32 rela = clear_32 rela
  undo_type jmp_slot rela = pure true
  undo_type irelative rela = pure true
  undo_type addr16 rela = clear_16 rela
  undo_type uaddr16 rela = clear_16 rela
  undo_type addr16_lo rela = clear_16 rela
  undo_type addr16_hi rela = clear_16 rela
  undo_type addr16_ha rela = clear_16 rela
  undo_type dtprel16 rela = clear_16 rela
  undo_type tprel16 rela = clear_16 rela
  undo_type dtprel16_lo rela = clear_16 rela
  undo_type tprel16_lo rela = clear_16 rela
  undo_type dtprel16_hi rela = clear_16 rela
  undo_type tprel16_hi rela = clear_16 rela
  undo_type dtprel16_ha rela = clear_16 rela
  undo_type tprel16_ha rela = clear_16 rela
  undo_type addr24 rela = clear_field rela 0xfc000003
  undo_type rel24 rela = clear_field rela 0xfc000003
  undo_type addr14 rela = clear_field rela 0xffff0003
  undo_type addr14_brtaken rela = clear_field rela 0xffdf0003
  undo_type addr14_brntaken rela = clear_field rela 0xffdf0003
  undo_type copy rela = λ d. pure (d.e_type == et_exec) d
  undo_type (unknown _) rela = pure false

  unfoldable pub undo_prelink_rela : Rela → M Bool
  unfolding undo_type
  undo_prelink_rela rela = undo_type (type_of (gelf_r_type rela.r_info)) rela

  -- The words of .plt from `addr` to `endaddr`, in at most `left` rounds.
  unfoldable pub restore_plt : ℕ → ℕ → ℕ → ℕ → M (Unit {0})
  restore_plt zero addr endaddr val = pure tt
  restore_plt (suc left) addr endaddr val =
      if ltb addr endaddr
      then write_be32 host addr val >> restore_plt left (u32 (addr + 4)) endaddr (u32 (val + 4))
      else pure tt

  -- `got` is `dynamic_info_is_set (dso, DT_PPC_GOT_BIT)`, and `dyns` are the entries of .dynamic. A
  -- .plt of `sh_size` bytes takes a quarter as many rounds. It returns 0 always.
  unfoldable pub arch_undo_prelink : Bool → List Dyn → M (Unit {0})
  arch_undo_prelink got dyns = if not got then pure tt else elim (ppc_got dyns) [
    | none ↦ λ d. none
    | some ptr ↦ do
      val ← read_ube32 host (add64 ptr 4)
      if val == 0 then pure tt else λ d. elim (named plt_name (drop 1 d.shdr)) [
        | none ↦ pure tt d
        | some plt ↦
            if not (bit_and plt.sh_size 3 == 0)
            then pure tt d
            else (restore_plt (plt.sh_size / 4) (u32 plt.sh_addr) (u32 (plt.sh_addr + plt.sh_size))
                    val
                  >> write_be32 host (add64 ptr 4) 0
                  >> pure tt)
                d
      ]
  ]
