-- ===== src/X86_64/Tests.antt =====
-- Relocations of a small x86-64 library with a .got.plt.
use prelink_cross.Base.{
  ℕ, ◌+◌, ◌≡◌, ◌≢◌, refl, true, false, none, some, List, [], ◌∷◌, arith, replicate,
}
use prelink_cross.Bytes.{lsb, Width, w64, bytes_of, buf_write_ne}
use prelink_cross.Dso.{Dso, Shdr, addr_to_sec, holds_addr, find_sec}
use prelink_cross.Data.{◌>>◌, pure, write, get_data, place_in, find_block, change_at, change_from}
use prelink_cross.Reloc.{Rela, Conflict, Objects, gelf_r_info, gelf_r_type, conflict_lookup_value}
use prelink_cross.X86_64.{type_of, got_plt_name, same_name}
use prelink_cross.X86_64.{plt_name}
use prelink_cross.X86_64.Prelink.{
  Resolved, aborts, apply_rela, apply_type, prelink_rela, apply_conflict_rela,
}
use prelink_cross.X86_64.Prelink.Agree.{size_of, apply_rela-prelink_rela}
use prelink_cross.X86_64.Conflicts.{
  prelink_conflict_rela, conflict_type, conflict_value, conflict_rela,
}
use prelink_cross.X86_64.Conflicts.Applies.{
  resolve_to, prelink_conflict_rela-apply, apply_conflict_rela-ne-aborts,
}
use prelink_cross.X86_64.Undo.{undo_prelink_rela}
use prelink_cross.X86_64.Undo.Restores.{
  StoresAndClears, undo_prelink_rela-prelink_rela, undo_prelink_rela-slot,
}

abbrev got_plt : Shdr
got_plt = record {
  name = got_plt_name;
  sh_type = 1;
  sh_flags = 3;
  sh_addr = 0x3000;
  sh_offset = 0x3000;
  sh_size = 48;
  sh_addralign = 4;
}

abbrev library_with : ℕ → List ℕ → List ℕ → Dso
library_with lastscn buf dirty = record {
  elf64 = true;
  e_data = lsb;
  e_type = 3;
  e_machine = 62;
  e_entry = 0;
  phdr = [];
  shdr = got_plt ∷ [];
  scn = (record { d_off = 0; d_size = 48; bytes = false; d_buf = buf } ∷ []) ∷ [];
  lastscn = lastscn;
  base = 0x1000;
  end = 0x3030;
  adjust = [];
  dirty = dirty;
}

abbrev plain : Dso
plain = library_with 0 (replicate 48 0) []

-- .plt is at 0x1000, and .plt + 0x16 stands in the second word.
abbrev with_plt : Dso
with_plt =
    library_with 0
      (0 ∷ 0 ∷ 0 ∷ 0 ∷ 0 ∷ 0 ∷ 0 ∷ 0 ∷ 0x16 ∷ 0x10 ∷ 0 ∷ 0 ∷ 0 ∷ 0 ∷ 0 ∷ 0 ∷ replicate 32 0)
      (0 ∷ [])

abbrev rela_of : ℕ → Rela
rela_of type = record { r_offset = 0x3020; r_info = gelf_r_info 5 type; r_addend = 4 }

abbrev resolve : ℕ → ℕ → Resolved
resolve sym type = record { value = 0x7000 + sym; resolvetls = none }

abbrev relocated : List ℕ
relocated = 0x09 ∷ 0x70 ∷ 0 ∷ 0 ∷ 0 ∷ 0 ∷ 0 ∷ 0 ∷ []

apply_rela-prelink_rela_example :
    (w : Width) × (word : ℕ) × (buf_write_ne lsb w (replicate 8 1) word ≡ some relocated)
    × (prelink_rela lsb resolve (rela_of 1) plain
        ≡ (write lsb lsb w 0x3020 word >> pure true) plain)
    × (bytes_of w ≡ size_of true (type_of (gelf_r_type (rela_of 1).r_info)))
unfolding type_of apply_rela apply_type buf_write_ne
apply_rela-prelink_rela_example =
    apply_rela-prelink_rela lsb resolve (rela_of 1) plain (replicate 8 1) relocated
      (λ e. absurd (cc e)) refl

abbrev objects : Objects
objects = record { base_of = λ p. 0x10000; tls_of = λ p. record { modid = 1; offset = 0 } }

abbrev found : Conflict
found = record {
  lookup = 1;
  conflict = 2;
  lookupval = 0x20;
  conflictval = 0x30;
  reloc_class = 8;
  ifunc = false;
}

abbrev conflicting : Rela
conflicting = record { r_offset = 0x3020; r_info = gelf_r_info 0 1; r_addend = 0x10024 }

prelink_conflict_rela-apply_example :
    (conflicting.r_offset ≡ (rela_of 6).r_offset)
    × ((apply_conflict_rela true conflicting (replicate 8 1) 0).0
        ≡ apply_rela true
            (resolve_to (conflict_lookup_value objects found))
            (rela_of 6)
            (replicate 8 1))
unfolding type_of prelink_conflict_rela conflict_type conflict_value conflict_rela
    conflict_lookup_value
prelink_conflict_rela-apply_example =
    prelink_conflict_rela-apply true false 0 objects (rela_of 6) conflicting found (replicate 8 1) 0
      tt refl refl

apply_conflict_rela-ne-aborts_example :
    (apply_conflict_rela true conflicting (replicate 8 1) 0).0 ≢ aborts
unfolding type_of prelink_conflict_rela conflict_type conflict_value conflict_rela
    conflict_lookup_value
apply_conflict_rela-ne-aborts_example =
    apply_conflict_rela-ne-aborts true false 0 objects (rela_of 6) conflicting (some found)
      (replicate 8 1) 0 (omega arith) refl

undo_prelink_rela-prelink_rela_example :
    StoresAndClears lsb resolve
      (rela_of 6)
      plain
      with_plt
      (prelink_rela lsb resolve (rela_of 6))
      (undo_prelink_rela lsb (rela_of 6))
unfolding type_of
undo_prelink_rela-prelink_rela_example =
    undo_prelink_rela-prelink_rela lsb resolve (rela_of 6) plain with_plt tt refl

undo_prelink_rela-slot_example :
    undo_prelink_rela lsb (rela_of 7) with_plt
    ≡ (write lsb lsb w64 0x3020 0x1026 >> pure true) with_plt
unfolding type_of write get_data addr_to_sec holds_addr find_sec place_in find_block change_at
    change_from buf_write_ne same_name
undo_prelink_rela-slot_example =
    undo_prelink_rela-slot lsb with_plt got_plt 1 (omega arith) plain 0x1016 0 (rela_of 7)
      (omega arith) refl refl refl refl refl refl refl

-- The library holds the address 0x1016 in the second word of .got.plt, and moves by 0x40000.
abbrev relative_rela : Rela
relative_rela = record { r_offset = 0x3008; r_info = gelf_r_info 0 8; r_addend = 0x1016 }

abbrev with_moved_plt : Dso
with_moved_plt =
    library_with 0
      (0 ∷ 0 ∷ 0 ∷ 0 ∷ 0 ∷ 0 ∷ 0 ∷ 0 ∷ 0x16 ∷ 0x10 ∷ 4 ∷ 0 ∷ 0 ∷ 0 ∷ 0 ∷ 0 ∷ replicate 32 0)
      (0 ∷ 0 ∷ [])

abbrev plt : Shdr
plt = record {
  name = plt_name;
  sh_type = 1;
  sh_flags = 6;
  sh_addr = 0x1000;
  sh_offset = 0x1000;
  sh_size = 64;
  sh_addralign = 4;
}

-- An object with .got.plt and .plt.
abbrev linked_with : List ℕ → List ℕ → Dso
linked_with buf dirty = record (library_with 0 buf dirty) {
  shdr = got_plt ∷ plt ∷ [];
  scn = (record { d_off = 0; d_size = 48; bytes = false; d_buf = buf } ∷ []) ∷ [] ∷ [];
}

abbrev linked : Dso
linked = linked_with (replicate 48 0) []

abbrev prelinked : Dso
prelinked =
    linked_with
      (0 ∷ 0 ∷ 0 ∷ 0 ∷ 0 ∷ 0 ∷ 0 ∷ 0 ∷ 0x16 ∷ 0x10 ∷ 0 ∷ 0 ∷ 0 ∷ 0 ∷ 0 ∷ 0 ∷ replicate 32 0)
      (0 ∷ [])
