-- ===== src/X86_64/Undo.antt =====
-- x86_64_undo_prelink_rela and x86_64_arch_undo_prelink: what takes the relocations out again.
pub mod Restores
pub mod Got
use prelink_cross.Base.{
  ℕ, ◌+◌, ◌*◌, ◌^◌, ◌%◌, Bool, true, false, ◌&&◌, ◌||◌, not, Option, none, some, drop, leb, ◌==◌,
  if◌then◌else◌, get_elem?, bit_and, add64, sub64, u64,
}
use prelink_cross.Bytes.{ByteOrder, lsb, w32, w64}
use prelink_cross.Dso.{Dso, Shdr, addr_to_sec}
use prelink_cross.Data.{M, ◌>>=◌, ◌>>◌, pure, read_u, write}
use prelink_cross.Reloc.{Rela, gelf_r_type}
use prelink_cross.X86_64.{
  RelocType, none_, r64, pc32, copy, glob_dat, jump_slot, relative, r32, dtpmod64, dtpoff64,
  tpoff64, irelative, unknown, type_of, read_uleclass, write_leclass, find_plt, same_name, got_name,
  got_plt_name,
}
use prelink_cross.X86_64.Prelink.{et_exec}

module _ (host : ByteOrder) where
  -- The word of a slot in the section `s`: 16 bytes of .plt for 8 bytes of .got.plt, from got[1] on,
  -- which holds .plt + 0x16. A failing `assert` is `none`.
  unfoldable pub undo_slot : Shdr → ℕ → M Bool
  undo_slot s off = do
    word ← read_uleclass host (add64 s.sh_addr 8)
    if leb (add64 s.sh_addr 24) off && bit_and (sub64 off s.sh_addr) 7 == 0
        then write_leclass host off (u64 (2 * sub64 (sub64 off s.sh_addr) 24 + word)) >> pure true
        else λ d. none

  -- The case R_X86_64_JUMP_SLOT, for the section that was found. With none, the name is read from a
  -- header before the first one, which is undefined, before -1 is tested for.
  unfoldable pub jump_slot_in : Rela → Option ℕ → M Bool
  jump_slot_in rela none d = none
  jump_slot_in rela (some n) d = elim (get_elem? d.shdr n) [
    | none ↦ none
    | some s ↦
        if same_name s.name got_name || same_name s.name got_plt_name
        then undo_slot s rela.r_offset d
        else pure false d
  ]

  unfoldable pub undo_jump_slot : Rela → M Bool
  unfolding jump_slot_in
  undo_jump_slot rela d = let (sec, d') = addr_to_sec d rela.r_offset in jump_slot_in rela sec d'

  -- The cases of the `switch`.
  unfoldable pub undo_type : RelocType → Rela → M Bool
  undo_type none_ rela = pure true
  undo_type relative rela = pure true
  undo_type irelative rela = pure true
  undo_type jump_slot rela = undo_jump_slot rela
  undo_type glob_dat rela = write_leclass host rela.r_offset 0 >> pure true
  undo_type r64 rela = write host lsb w64 rela.r_offset 0 >> pure true
  undo_type dtpmod64 rela = write host lsb w64 rela.r_offset 0 >> pure true
  undo_type dtpoff64 rela = write host lsb w64 rela.r_offset 0 >> pure true
  undo_type tpoff64 rela = write host lsb w64 rela.r_offset 0 >> pure true
  undo_type r32 rela = write host lsb w32 rela.r_offset 0 >> pure true
  undo_type pc32 rela = write host lsb w32 rela.r_offset 0 >> pure true
  undo_type copy rela = λ d. pure (d.e_type == et_exec) d
  undo_type (unknown _) rela = pure false

  unfoldable pub undo_prelink_rela : Rela → M Bool
  unfolding undo_type undo_jump_slot
  undo_prelink_rela rela = undo_type (type_of (gelf_r_type rela.r_info)) rela

  -- `pltgot` is `dso->info[DT_PLTGOT]`.
  unfoldable pub arch_undo_prelink : ℕ → M Bool
  arch_undo_prelink pltgot d =
      let (sec, d') = addr_to_sec d pltgot in
      if pltgot == 0 then pure true d else elim sec [
        | none ↦ pure false d'
        | some _ ↦ elim (find_plt (drop 1 d'.shdr)) [
          | none ↦ pure true d'
          | some plt ↦
              (read_u host lsb w64 (add64 pltgot 8) >>= λ word.
              if word == add64 plt.sh_addr 0x16
              then write host lsb w64 (add64 pltgot 8) 0 >> pure true
              else pure true)
                d'
        ]
      ]
