-- ===== src/I386/Tests.antt =====
-- Relocations of a small i386 library with a .data section.
use prelink_cross.Base.{ℕ, ◌+◌, ◌-◌, ◌^◌, ◌≡◌, refl, true, false, none, some, List, [], ◌∷◌, arith}
use prelink_cross.Bytes.{lsb, buf_read_une, buf_write_ne}
use prelink_cross.Dso.{Dso, Shdr, addr_to_sec, holds_addr, find_sec}
use prelink_cross.Data.{read_u, write, get_data, place_in, find_block, change_at, change_from}
use prelink_cross.Reloc.{Rel, gelf_r_info}
use prelink_cross.X86_64.{same_name}
use prelink_cross.X86_64.Prelink.{Resolved, done}
use prelink_cross.I386.{type_of}
use prelink_cross.I386.Prelink.{
  failed_, changed, prelink_rel, prelink_rel_type, apply_rel, apply_rela, apply_rela_type,
}
use prelink_cross.I386.Convert.{
  with_addend, rel_to_rela, rel_to_rela_type, rela_to_rel, need_rel_to_rela, sections_need_rela,
  blocks_need_rela, rels_need_rela, needs_rela,
}
use prelink_cross.I386.Undo.{undo_prelink_rel, undo_type}
use prelink_cross.I386.Agree.{result_of, apply_rel-apply_rela}
use prelink_cross.I386.RoundTrip.{rel_to_rela-rela_to_rel}

abbrev data_section : Shdr
data_section = record {
  name = b'.' ∷ b'd' ∷ b'a' ∷ b't' ∷ b'a' ∷ [];
  sh_type = 1;
  sh_flags = 3;
  sh_addr = 0x3000;
  sh_offset = 0x3000;
  sh_size = 8;
  sh_addralign = 4;
}

-- The relocations of that section: a word at 0x3000 and one at 0x3004.
abbrev rel_section : Shdr
rel_section = record {
  name = [];
  sh_type = 9;
  sh_flags = 2;
  sh_addr = 0x1000;
  sh_offset = 0x1000;
  sh_size = 16;
  sh_addralign = 4;
}

abbrev rel_words : List ℕ
rel_words = 0 ∷ 0x30 ∷ 0 ∷ 0 ∷ 1 ∷ 5 ∷ 0 ∷ 0 ∷ 4 ∷ 0x30 ∷ 0 ∷ 0 ∷ 1 ∷ 5 ∷ 0 ∷ 0 ∷ []

abbrev library_with : List ℕ → List ℕ → Dso
library_with buf dirty = record {
  elf64 = false;
  e_data = lsb;
  e_type = 3;
  e_machine = 3;
  e_entry = 0;
  phdr = [];
  shdr = data_section ∷ rel_section ∷ [];
  scn =
      (record { d_off = 0; d_size = 8; bytes = false; d_buf = buf } ∷ [])
      ∷ (record { d_off = 0; d_size = 16; bytes = false; d_buf = rel_words } ∷ [])
      ∷ [];
  lastscn = 0;
  base = 0x1000;
  end = 0x3008;
  adjust = [];
  dirty = dirty;
}

-- The first word is 0, and the second -4.
abbrev plain : Dso
plain = library_with (0 ∷ 0 ∷ 0 ∷ 0 ∷ 0xfc ∷ 0xff ∷ 0xff ∷ 0xff ∷ []) []

abbrev resolve : ℕ → ℕ → Resolved
resolve sym type = record { value = 0x7000 + sym; resolvetls = none }

abbrev rel_at : ℕ → ℕ → Rel
rel_at offset type = record { r_offset = offset; r_info = gelf_r_info 5 type }

abbrev minus_four : ℕ
minus_four = 2 ^ 64 - 4

-- Only the second word has an addend.
first_prelinked :
    result_of (prelink_rel lsb resolve (rel_at 0x3000 1) plain) ≡ some (changed (rel_at 0x3000 6))
unfolding prelink_rel prelink_rel_type type_of read_u write get_data addr_to_sec holds_addr find_sec
    place_in find_block change_at change_from buf_read_une buf_write_ne
first_prelinked = refl

second_refused : result_of (prelink_rel lsb resolve (rel_at 0x3004 1) plain) ≡ some failed_
unfolding prelink_rel prelink_rel_type type_of read_u get_data addr_to_sec holds_addr find_sec
    place_in find_block buf_read_une
second_refused = refl

needs_conversion : result_of (need_rel_to_rela lsb 1 1 plain) ≡ some true
unfolding need_rel_to_rela sections_need_rela blocks_need_rela rels_need_rela needs_rela type_of
    read_u get_data addr_to_sec holds_addr find_sec place_in find_block buf_read_une
needs_conversion = refl

glob_dat_undone :
    result_of (undo_prelink_rel lsb (rel_at 0x3000 6) plain) ≡ some (changed (rel_at 0x3000 1))
unfolding undo_prelink_rel undo_type type_of write get_data addr_to_sec holds_addr find_sec place_in
    find_block change_at change_from buf_write_ne same_name
glob_dat_undone = refl

copied :
    apply_rela resolve (with_addend (rel_at 0x3004 1) minus_four) (1 ∷ 1 ∷ 1 ∷ 1 ∷ [])
    ≡ done (1 ∷ 0x70 ∷ 0 ∷ 0 ∷ [])
unfolding apply_rela apply_rela_type type_of buf_write_ne
copied = refl

apply_rel-apply_rela_example :
    result_of (apply_rel lsb resolve (rel_at 0x3004 1) (1 ∷ 1 ∷ 1 ∷ 1 ∷ []) plain)
    ≡ some (apply_rela resolve (with_addend (rel_at 0x3004 1) minus_four) (1 ∷ 1 ∷ 1 ∷ 1 ∷ []))
unfolding rel_to_rela rel_to_rela_type type_of read_u get_data addr_to_sec holds_addr find_sec
    place_in find_block buf_read_une
apply_rel-apply_rela_example =
    apply_rel-apply_rela lsb resolve (rel_at 0x3004 1) 0 (1 ∷ 1 ∷ 1 ∷ 1 ∷ []) plain plain
      (with_addend (rel_at 0x3004 1) minus_four) (omega arith) (omega arith) refl

abbrev stored : Dso
stored = library_with (0xfc ∷ 0xff ∷ 0xff ∷ 0xff ∷ 0xfc ∷ 0xff ∷ 0xff ∷ 0xff ∷ []) (0 ∷ [])

rel_to_rela-rela_to_rel_example :
    (rela_to_rel lsb (with_addend (rel_at 0x3000 2) minus_four) plain
      ≡ some (rel_at 0x3000 2, stored))
    × (rel_to_rela lsb (rel_at 0x3000 2) 0 stored
        ≡ some (with_addend (rel_at 0x3000 2) minus_four, stored))
unfolding type_of write get_data addr_to_sec holds_addr find_sec place_in find_block change_at
    change_from buf_write_ne
rel_to_rela-rela_to_rel_example =
    rel_to_rela-rela_to_rel lsb (with_addend (rel_at 0x3000 2) minus_four) 0 plain stored refl refl
