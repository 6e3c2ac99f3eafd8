-- ===== src/Ppc/Tests.antt =====
-- Relocations of a small PowerPC object, and its PLT.
use prelink_cross.Base.{
  ℕ, ◌≡◌, ◌≢◌, refl, ap, sym, true, false, Option, none, some, List, [], ◌∷◌, ◌++◌, arith, ◌==◌,
  if◌then◌else◌, u32,
}
use prelink_cross.Bytes.{msb, buf_read_une, buf_write_ne}
use prelink_cross.Dso.{Dso, Shdr, addr_to_sec, holds_addr, find_sec}
use prelink_cross.Data.{read_u, write, get_data, place_in, find_block, change_at, change_from}
use prelink_cross.Reloc.{Rela, Conflict, Objects, gelf_r_info, conflict_lookup_value}
use prelink_cross.RelocSections.{Dynamic}
use prelink_cross.X86_64.Prelink.{Resolved, done}
use prelink_cross.X86_64.Conflicts.Applies.{resolve_to}
use prelink_cross.Ppc.{addr14_brtaken, addr14_brntaken, type_of}
use prelink_cross.Ppc.Words.{sword, field_24, field_14_predicted}
use prelink_cross.Ppc.Plt.{plt_words, plt0_words, table_of}
use prelink_cross.Ppc.Prelink.{apply_type, apply_rela, apply_conflict_rela, prelink_rela}
use prelink_cross.Ppc.Conflicts.{
  conflict_type, conflict_rela, conflict_value, prelink_conflict_rela,
}
use prelink_cross.Ppc.Applies.{prelink_conflict_rela-apply_word, conflict_type-brtaken}
use prelink_cross.Ppc.Machine.{Cpu, run}
use prelink_cross.Ppc.Reaches.{Reaches, plt_words-Reaches, plt_words-far}

abbrev text : Shdr
text = record {
  name = [];
  sh_type = 1;
  sh_flags = 6;
  sh_addr = 0x10000;
  sh_offset = 0x10000;
  sh_size = 8;
  sh_addralign = 4;
}

abbrev object_with : List ℕ → List ℕ → Dso
object_with buf dirty = record {
  elf64 = false;
  e_data = msb;
  e_type = 3;
  e_machine = 20;
  e_entry = 0;
  phdr = [];
  shdr = text ∷ [];
  scn = (record { d_off = 0; d_size = 8; bytes = true; d_buf = buf } ∷ []) ∷ [];
  lastscn = 0;
  base = 0x10000;
  end = 0x10008;
  adjust = [];
  dirty = dirty;
}

-- `bl` and `bc`.
abbrev branches : List ℕ
branches = 0x48 ∷ 0 ∷ 0 ∷ 1 ∷ 0x41 ∷ 0x82 ∷ 0 ∷ 0 ∷ []

abbrev object : Dso
object = object_with branches []

abbrev rela_of : ℕ → ℕ → Rela
rela_of offset type = record { r_offset = offset; r_info = gelf_r_info 5 type; r_addend = 0 }

abbrev resolve : ℕ → ℕ → Resolved
resolve sym type = record { value = 0x10104; resolvetls = none }

-- R_PPC_REL24.
call_moved :
    prelink_rela msb true
      (record { info = λ t. 0; is_set = λ t. false })
      resolve
      (rela_of 0x10000 10)
      object
    ≡ some (true, object_with (0x48 ∷ 0 ∷ 1 ∷ 5 ∷ 0x41 ∷ 0x82 ∷ 0 ∷ 0 ∷ []) (0 ∷ []))
unfolding prelink_rela type_of field_24 read_u write get_data addr_to_sec holds_addr find_sec
    place_in find_block change_at change_from buf_write_ne buf_read_une
call_moved = refl

abbrev objects : Objects
objects = record { base_of = λ p. 0x20000; tls_of = λ p. record { modid = 1; offset = 0 } }

abbrev found : Conflict
found = record {
  lookup = 1;
  conflict = 2;
  lookupval = 0x20;
  conflictval = 0x30;
  reloc_class = 8;
  ifunc = false;
}

abbrev conflicting : ℕ → ℕ → Rela
conflicting offset word = record { r_offset = offset; r_info = gelf_r_info 0 1; r_addend = word }

abbrev word_of : Option (ℕ × Dso) → Option ℕ
word_of none = none
word_of (some (word, d)) = some word

prelink_conflict_rela-apply_word_example :
    ((conflicting 0x10000 0x48010021).r_offset ≡ (rela_of 0x10000 10).r_offset)
    × ((apply_conflict_rela true (conflicting 0x10000 0x48010021) branches 0).0
        ≡ apply_rela
            (resolve_to (conflict_lookup_value objects found))
            (rela_of 0x10000 10)
            branches)
unfolding type_of prelink_conflict_rela conflict_type conflict_value conflict_rela sword field_24
    conflict_lookup_value read_u get_data addr_to_sec holds_addr find_sec place_in find_block
    buf_read_une
prelink_conflict_rela-apply_word_example =
    prelink_conflict_rela-apply_word msb true false true 0 objects (rela_of 0x10000 10)
      (conflicting 0x10000 0x48010021) found object object branches 0 refl tt
      (λ f word d' e. let p : some (0x48000001, object) ≡ some (word, d') = e in ap word_of p) refl

-- The bit that predicts the branch as taken is set in place, and not by the conflict.
taken_in_place :
    apply_type (resolve_to 0x20020) addr14_brtaken (rela_of 0x10004 8) (0x41 ∷ 0x82 ∷ 0 ∷ 0 ∷ [])
    ≡ done (0x41 ∷ 0xa2 ∷ 0 ∷ 0x20 ∷ [])
unfolding apply_type field_14_predicted buf_read_une buf_write_ne
taken_in_place = refl

conflict_type-brtaken_example :
    ((apply_conflict_rela true (conflicting 0x10004 0x41820020) (0x41 ∷ 0x82 ∷ 0 ∷ 0 ∷ []) 0).0
      ≢ apply_type
          (resolve_to (conflict_lookup_value objects found))
          addr14_brtaken
          (rela_of 0x10004 8)
          (0x41 ∷ 0x82 ∷ 0 ∷ 0 ∷ []))
    × ((apply_conflict_rela true (conflicting 0x10004 0x41820020) (0x41 ∷ 0x82 ∷ 0 ∷ 0 ∷ []) 0).0
        ≡ apply_type
            (resolve_to (conflict_lookup_value objects found))
            addr14_brntaken
            (rela_of 0x10004 8)
            (0x41 ∷ 0x82 ∷ 0 ∷ 0 ∷ []))
unfolding conflict_type conflict_value conflict_rela sword field_14_predicted conflict_lookup_value
    read_u get_data addr_to_sec holds_addr find_sec place_in find_block buf_read_une
conflict_type-brtaken_example =
    conflict_type-brtaken msb true false true 0 objects (rela_of 0x10004 8)
      (conflicting 0x10004 0x41820020) found object object (0x41 ∷ 0x82 ∷ 0 ∷ 0 ∷ []) 0 refl
      (λ word d' e. let p : some (0x41820000, object) ≡ some (word, d') = e in ap word_of p) refl

-- DT_PLTGOT, and DT_PLTRELSZ of two entries, or of many.
abbrev dynamic : ℕ → Dynamic
dynamic size = record {
  info = λ t. if t == 3 then 0x10010000 else if t == 2 then size else 0;
  is_set = λ t. false;
}

abbrev word_at : List (ℕ × ℕ) → ℕ → ℕ
word_at [] a = 0
word_at ((b, w) ∷ l) a = if a == b then u32 w else word_at l a

abbrev memory : Dynamic → ℕ → ℕ → ℕ → ℕ
memory y at value = word_at (plt_words y at value ++ plt0_words y)

abbrev start : ℕ → Cpu
start at = record { pc = at; reg = λ i. 0x1234; ctr = 0 }

plt_words-Reaches_example :
    Reaches (memory (dynamic 24) 0x10010050 0x20000000) (start 0x10010050) 0x20000000
unfolding plt_words plt0_words table_of
plt_words-Reaches_example =
    plt_words-Reaches (memory (dynamic 24) 0x10010050 0x20000000) (dynamic 24) 0x10010050 0x20000000
      (start 0x10010050) (omega arith) (omega arith) (omega arith) (omega arith) (omega arith)
      (omega arith) (omega arith) refl (refl, (refl, (refl, tt))) (refl, (refl, (refl, (refl, tt))))

plt_words-far_example :
    (s' : Cpu) × (run 4 (memory (dynamic 120000) 0x10020048 0x20000000) (start 0x10020048)
      ≡ some s')
    × (s'.pc ≢ 0x20000000)
unfolding plt_words plt0_words table_of
plt_words-far_example =
    plt_words-far (memory (dynamic 120000) 0x10020048 0x20000000) (dynamic 120000) 0x10020048
      0x20000000 (start 0x10020048) (omega arith) (omega arith) (omega arith) refl refl refl
      (refl, (refl, (refl, (refl, tt))))
