-- ===== src/I386/Undo.antt =====
-- i386_arch_prelink, which stores an address of .plt in the second word of .got,
-- i386_arch_undo_prelink and i386_undo_prelink_rel, which take out what prelinking stored.
use prelink_cross.Base.{
  ℕ, ◌+◌, ◌*◌, Bool, true, false, ◌&&◌, ◌||◌, Option, none, some, drop, leb, ◌==◌, if◌then◌else◌,
  get_elem?, bit_and, add64, sub64, u32, u64,
}
use prelink_cross.Bytes.{ByteOrder}
use prelink_cross.Dso.{Dso, Shdr, addr_to_sec}
use prelink_cross.Data.{M, ◌>>=◌, ◌>>◌, pure}
use prelink_cross.Reloc.{Rel, gelf_r_sym, gelf_r_type, gelf_r_info}
use prelink_cross.X86_64.{find_plt, same_name, got_name, got_plt_name}
use prelink_cross.X86_64.Prelink.{et_exec}
use prelink_cross.I386.{
  RelocType, none_, r32, pc32, copy, glob_dat, jmp_slot, relative, tls_tpoff, dtpmod32, dtpoff32,
  tpoff32, irelative, unknown, type_of, read_ule32, write_le32,
}
use prelink_cross.I386.Prelink.{Outcome, kept, failed_, changed}

module _ (host : ByteOrder) where
  -- `pltgot` is `dso->info[DT_PLTGOT]`.
  unfoldable pub arch_prelink : ℕ → M Bool
  arch_prelink pltgot d =
      let (sec, d') = addr_to_sec d pltgot in
      if pltgot == 0 then pure true d else elim sec [
        | none ↦ pure false d'
        | some _ ↦ elim (find_plt (drop 1 d'.shdr)) [
          | none ↦ pure true d'
          | some plt ↦
              (write_le32 host (add64 pltgot 4) (u32 (add64 plt.sh_addr 0x16)) >> pure true) d'
        ]
      ]

  unfoldable pub arch_undo_prelink : ℕ → M Bool
  arch_undo_prelink pltgot d =
      let (sec, d') = addr_to_sec d pltgot in
      if pltgot == 0 then pure true d else elim sec [
        | none ↦ pure false d'
        | some _ ↦ elim (find_plt (drop 1 d'.shdr)) [
          | none ↦ pure true d'
          | some plt ↦
              (read_ule32 host (add64 pltgot 4) >>= λ word.
              if word == add64 plt.sh_addr 0x16
              then write_le32 host (add64 pltgot 4) 0 >> pure true
              else pure true)
                d'
        ]
      ]

  -- The word of a slot in the section `s`: 16 bytes of .plt for 4 bytes of .got, from got[1] on,
  -- which holds .plt + 0x16. A failing `assert` is `none`.
  unfoldable pub undo_slot : Shdr → ℕ → M Outcome
  undo_slot s off = do
    word ← read_ule32 host (add64 s.sh_addr 4)
    if leb (add64 s.sh_addr 12) off && bit_and (sub64 off s.sh_addr) 3 == 0
        then (write_le32 host off (u64 (4 * sub64 (sub64 off s.sh_addr) 12 + word)) >> pure kept)
        else λ d. none

  -- The name is read before -1 is tested for: with no section it is undefined.
  unfoldable pub jmp_slot_in : Rel → Option ℕ → M Outcome
  jmp_slot_in rel none d = none
  jmp_slot_in rel (some n) d = elim (get_elem? d.shdr n) [
    | none ↦ none
    | some s ↦
        if same_name s.name got_name || same_name s.name got_plt_name
        then undo_slot s rel.r_offset d
        else pure failed_ d
  ]

  -- A word outside of .got was an R_386_32 before prelinking.
  abbrev glob_dat_in : Rel → Option ℕ → Dso → Outcome
  glob_dat_in rel none d = kept
  glob_dat_in rel (some n) d = elim (get_elem? d.shdr n) [
    | none ↦ kept
    | some s ↦
        if same_name s.name got_name
        then kept
        else changed
            (record { r_offset = rel.r_offset; r_info = gelf_r_info (gelf_r_sym rel.r_info) 1 })
  ]

  unfoldable pub undo_type : RelocType → Rel → M Outcome
  unfolding jmp_slot_in
  undo_type none_ rel = pure kept
  undo_type relative rel = pure kept
  undo_type irelative rel = pure kept
  undo_type jmp_slot rel = λ d. let (sec, d') = addr_to_sec d rel.r_offset in jmp_slot_in rel sec d'
  undo_type glob_dat rel = λ d.
      let (sec, d') = addr_to_sec d rel.r_offset in
      (write_le32 host rel.r_offset 0 >> pure (glob_dat_in rel sec d')) d'
  undo_type r32 rel = pure failed_
  undo_type pc32 rel = pure failed_
  undo_type copy rel = λ d. pure (if d.e_type == et_exec then kept else failed_) d
  undo_type dtpmod32 rel = write_le32 host rel.r_offset 0 >> pure kept
  undo_type dtpoff32 rel = write_le32 host rel.r_offset 0 >> pure kept
  undo_type tpoff32 rel = pure kept
  undo_type tls_tpoff rel = pure kept
  undo_type (unknown _) rel = pure failed_

  unfoldable pub undo_prelink_rel : Rel → M Outcome
  unfolding undo_type
  undo_prelink_rel rel = undo_type (type_of (gelf_r_type rel.r_info)) rel
