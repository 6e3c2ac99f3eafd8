-- ===== src/Dso/Tests.antt =====
-- A small object: a text and a data section, a cache of what was searched, and two adjustments.
use prelink_cross.Base.{
  ℕ, zero, suc, subst, ◌⊎◌, ◌≤◌, ◌<◌, ◌≡◌, ◌↔◌, refl, true, none, some, List, [], ◌∷◌, arith, inl,
  inr,
}
use prelink_cross.Bytes.{lsb}
use prelink_cross.Dso.{
  Dso, Shdr, Phdr, addr_to_sec, holds_addr, find_sec, insert_adjust, checked_phdr, shift_phdr,
  adjust_phdr, adjust_old_to_new, adjust_new_to_old,
}
use prelink_cross.Dso.Sections.{
  Holds, AreDisjoint, addr_to_sec-Holds, addr_to_sec-none_iff, addr_to_sec-lastscn,
}
use prelink_cross.Dso.Adjust.{moved, moved-lt, new_to_old-old_to_new}
use prelink_cross.Dso.Record.{Recorded, record_adjust-Recorded}
use prelink_cross.Dso.Segments.{Covers, adjust_phdr-Covers}

abbrev text : Shdr
text = record {
  name = [];
  sh_type = 1;
  sh_flags = 6;
  sh_addr = 0x1000;
  sh_offset = 0x1000;
  sh_size = 0x100;
  sh_addralign = 4;
}

abbrev pub data_section : Shdr
data_section = record {
  name = [];
  sh_type = 1;
  sh_flags = 3;
  sh_addr = 0x2000;
  sh_offset = 0x2000;
  sh_size = 0x80;
  sh_addralign = 4;
}

abbrev segment : Phdr
segment = record {
  p_type = 1;
  p_flags = 5;
  p_offset = 0x1000;
  p_vaddr = 0x1000;
  p_paddr = 0x1000;
  p_filesz = 0x1080;
  p_memsz = 0x1100;
  p_align = 0x1000;
}

abbrev library : Dso
library = record {
  elf64 = true;
  e_data = lsb;
  e_type = 3;
  e_machine = 62;
  e_entry = 0;
  phdr = segment ∷ [];
  shdr = text ∷ data_section ∷ [];
  scn = [] ∷ [] ∷ [];
  lastscn = 0;
  base = 0x1000;
  end = 0x2080;
  adjust =
      record { start = 0x2000; adjust = 0x200 } ∷ record { start = 0x1080; adjust = 0x100 } ∷ [];
  dirty = [];
}

library_sections :
    (addr n : ℕ)
    → Holds library.shdr addr n
    → ((n ≡ 0) × (addr < 0x1100)) ⊎ ((n ≡ 1) × (0x2000 ≤ addr))
unfolding holds_addr
library_sections addr zero (s, p, h) =
    let q : s ≡ text = cc p in inl (refl, ground (arith, subst (λ t. holds_addr t addr ≡ true) q h))
library_sections addr (suc zero) (s, p, h) =
    let q : s ≡ data_section = cc p in
    inr (refl, ground (arith, subst (λ t. holds_addr t addr ≡ true) q h))
library_sections addr (suc (suc n)) (s, p, h) = absurd (cc p)

library-AreDisjoint : AreDisjoint library.shdr
library-AreDisjoint addr n m h k =
    ground (arith, library_sections addr n h, library_sections addr m k)

addr_to_sec-Holds_example :
    Holds library.shdr 0x2010 1 × (record library { lastscn = 1 } ≡ record library { lastscn = 1 })
unfolding addr_to_sec holds_addr find_sec
addr_to_sec-Holds_example = addr_to_sec-Holds library 0x2010 1 (record library { lastscn = 1 }) refl

addr_to_sec-none_iff_example :
    (addr_to_sec library 0x5000 ≡ (none, library)) ↔ ((n : ℕ) → ¬ Holds library.shdr 0x5000 n)
addr_to_sec-none_iff_example = addr_to_sec-none_iff library 0x5000

moved-lt_example : moved library.adjust 0x1090 < moved library.adjust 0x2000
moved-lt_example = moved-lt library.adjust 0x1090 0x2000 (omega arith) (omega arith)

new_to_old-old_to_new_example :
    (new : ℕ) × (adjust_old_to_new library 0x1090 ≡ some new)
    × (adjust_new_to_old library new ≡ some 0x1090)
new_to_old-old_to_new_example =
    new_to_old-old_to_new library 0x1090 (omega arith) (omega arith) (omega arith)

record_adjust-Recorded_example : Recorded library (moved library.adjust 0x1000) 0x40 0x1090
record_adjust-Recorded_example =
    record_adjust-Recorded library 0x1000 0x40 0x1090 (omega arith) (omega arith) (omega arith)
      (omega arith) (omega arith) (omega arith) (omega arith)

-- A shift from 0x1800 on, between the two recorded starts.
insert_adjust_between : insert_adjust library.adjust 0x1800 0x10 ≡ none
unfolding insert_adjust
insert_adjust_between = refl

abbrev grown : Phdr
grown = record segment { p_filesz = 0x1180; p_memsz = 0x1200 }

adjust_phdr-Covers_example : Covers 0x2000 0x100 segment grown
unfolding adjust_phdr shift_phdr checked_phdr
adjust_phdr-Covers_example =
    adjust_phdr-Covers 0x2000 0x100 segment grown (omega arith)
      (record { not_stack = omega arith; file_in_memory = omega arith; fits = omega arith }) refl

abbrev relocated : List Phdr
relocated = record segment { p_vaddr = 0x41000; p_paddr = 0x41000 } ∷ []

-- The section after the one that was searched last.
addr_to_sec-lastscn_example :
    (addr_to_sec (record library { lastscn = 1 }) 0x1010).0 ≡ (addr_to_sec library 0x1010).0
addr_to_sec-lastscn_example = addr_to_sec-lastscn library 0x1010 1 library-AreDisjoint
