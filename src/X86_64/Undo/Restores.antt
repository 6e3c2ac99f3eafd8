-- ===== src/X86_64/Undo/Restores.antt =====
-- What the undo functions put back.
use prelink_cross.Base.{
  ℕ, ◌+◌, ◌*◌, ◌^◌, ◌<◌, ◌≡◌, refl, ap, ◌∙◌, Bool, true, Option, some, ◌||◌, ◌&&◌, ◌==◌, leb, arith,
  get_elem?, add64, sub64, u64, bit_and,
}
use prelink_cross.Base.Bits.{bit_and_low}
use prelink_cross.Bytes.{ByteOrder, lsb, Width, w32, w64}
use prelink_cross.Dso.{Dso, Shdr, addr_to_sec}
use prelink_cross.Data.{M, ◌>>=◌, ◌>>◌, pure, read_u, write}
use prelink_cross.Data.ReadWrite.{read_u-write}
use prelink_cross.Reloc.{Rela, gelf_r_type}
use prelink_cross.X86_64.{
  RelocType, r64, pc32, glob_dat, jump_slot, r32, dtpoff64, type_of, write_leclass, read_uleclass,
  class_width, same_name, got_name, got_plt_name,
}
use prelink_cross.X86_64.Prelink.{Resolved, prelink_type, prelink_rela}
use prelink_cross.X86_64.Undo.{
  undo_slot, jump_slot_in, undo_jump_slot, undo_type, undo_prelink_rela,
}

-- The types whose word the undo clears.
abbrev pub IsCleared : RelocType → Type 0
IsCleared glob_dat = Unit {0}
IsCleared r64 = Unit {0}
IsCleared r32 = Unit {0}
IsCleared pc32 = Unit {0}
IsCleared dtpoff64 = Unit {0}
IsCleared _ = ⊥

module _ (host : ByteOrder) (resolve : ℕ → ℕ → Resolved) (rela : Rela) (d e : Dso) where
  -- One word is stored at `r_offset`, and a zero of the same width there later.
  abbrev pub StoresAndClears : M Bool → M Bool → Type 0
  StoresAndClears stores clears =
      (w : Width) × (word : ℕ) × (stores d ≡ (write host lsb w rela.r_offset word >> pure true) d)
      × (clears e ≡ (write host lsb w rela.r_offset 0 >> pure true) e)

  stores_and_clears :
      (t : RelocType)
      → IsCleared t
      → e.elf64 ≡ d.elf64
      → StoresAndClears (prelink_type host resolve t rela) (undo_type host t rela)
  unfolding prelink_type undo_type write_leclass
  stores_and_clears glob_dat c q = (class_width d.elf64, _, refl, rw q)
  stores_and_clears r64 c q = (w64, _, refl, refl)
  stores_and_clears r32 c q = (w32, _, refl, refl)
  stores_and_clears pc32 c q = (w32, _, refl, refl)
  stores_and_clears dtpoff64 c q = (w64, _, refl, refl)
  stores_and_clears _ c q = absurd c

  -- For a relocation of the types GLOB_DAT, 64, 32, PC32 and DTPOFF64: relocating stores one word at
  -- `r_offset`, and undoing, in any later state of the object, stores a zero of the same width there.
  pub undo_prelink_rela-prelink_rela :
      IsCleared (type_of (gelf_r_type rela.r_info))
      → e.elf64 ≡ d.elf64
      → StoresAndClears (prelink_rela host resolve rela) (undo_prelink_rela host rela)
  unfolding prelink_rela undo_prelink_rela
  undo_prelink_rela-prelink_rela c q = stores_and_clears (type_of (gelf_r_type rela.r_info)) c q

abbrev pub is_got : Shdr → Bool
is_got s = same_name s.name got_name || same_name s.name got_plt_name

module _ (host : ByteOrder) (d : Dso) (s : Shdr) (k : ℕ)
    (fits : s.sh_addr + 24 + 8 * k < 2 ^ 64) where
  abbrev slot : ℕ
  slot = s.sh_addr + 24 + 8 * k

  slot_aligned : bit_and (sub64 slot s.sh_addr) 7 ≡ 0
  slot_aligned = bit_and_low 3 (sub64 slot s.sh_addr) ∙ omega arith

  slot_value :
      (first : ℕ) → u64 (2 * sub64 (sub64 slot s.sh_addr) 24 + first) ≡ u64 (first + 16 * k)
  slot_value first = omega arith

  undo_slot-write :
      (first : ℕ) (d' : Dso)
      → read_uleclass host (add64 s.sh_addr 8) d ≡ some (first, d')
      → undo_slot host s slot d ≡ (write_leclass host slot (u64 (first + 16 * k)) >> pure true) d'
  unfolding undo_slot
  undo_slot-write first d' e =
      let ok : (leb (add64 s.sh_addr 24) slot && bit_and (sub64 slot s.sh_addr) 7 == 0) ≡ true =
        ground (arith, slot_aligned) in
      rw (e, ◌>>=◌) (rw ok (rw (slot_value first)))

  found_slot :
      (n : ℕ) (rela : Rela)
      → get_elem? d.shdr n ≡ some s
      → is_got s ≡ true
      → jump_slot_in host rela (some n) d ≡ undo_slot host s rela.r_offset d
  unfolding jump_slot_in
  found_slot n rela there got = rw (there, jump_slot_in) (rw got refl)

  got_slot :
      (n : ℕ) (rela : Rela)
      → addr_to_sec d rela.r_offset ≡ (some n, d)
      → get_elem? d.shdr n ≡ some s
      → is_got s ≡ true
      → undo_jump_slot host rela d ≡ undo_slot host s rela.r_offset d
  unfolding undo_jump_slot
  got_slot n rela sec there got =
      ap (λ (r : Option ℕ × Dso). jump_slot_in host rela r.0 r.1) sec ∙ found_slot n rela there got

  -- In a 64-bit object whose section `n` is .got or .got.plt, starts at `sh_addr` and is the one that
  -- was searched last, after `first` was written to its second word: undoing a JUMP_SLOT relocation
  -- of the slot `k` behind the three reserved words stores `first + 16 * k` there. With `first` the
  -- address .plt + 0x16 that x86_64_arch_prelink writes, that is the slot's own entry of .plt.
  pub undo_prelink_rela-slot :
      (d0 : Dso) (first n : ℕ) (rela : Rela)
      → first < 2 ^ 64
      → write host lsb w64 (add64 s.sh_addr 8) first d0 ≡ some (true, d)
      → d.elf64 ≡ true
      → addr_to_sec d slot ≡ (some n, d)
      → get_elem? d.shdr n ≡ some s
      → is_got s ≡ true
      → type_of (gelf_r_type rela.r_info) ≡ jump_slot
      → rela.r_offset ≡ slot
      → undo_prelink_rela host rela d
        ≡ (write host lsb w64 slot (u64 (first + 16 * k)) >> pure true) d
  unfolding undo_prelink_rela write_leclass
  undo_prelink_rela-slot d0 first n rela lt written c sec there got type off =
      let width : class_width d.elf64 ≡ w64 = ap class_width c in
      let back : read_uleclass host (add64 s.sh_addr 8) d ≡ some (first, d) =
        unfold read_uleclass in
        ap (λ w. read_u host lsb w (add64 s.sh_addr 8) d) width
        ∙ (read_u-write host lsb w64 d0 (add64 s.sh_addr 8) first d lt written).0 in
      ap (λ t. undo_type host t rela d) type
      ∙ got_slot n rela (ap (addr_to_sec d) off ∙ sec) there got
      ∙ ap (λ a. undo_slot host s a d) off
      ∙ undo_slot-write first d back
      ∙ ap (λ w. (write host lsb w slot (u64 (first + 16 * k)) >> pure true) d) width
