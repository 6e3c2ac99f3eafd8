-- ===== src/RelocSections/Tests.antt =====
-- An object with a .rel.dyn and a .rel.plt section, both within the range of DT_REL.
use prelink_cross.Base.{
  ℕ, ◌≡◌, refl, ap, sym, Bool, true, false, none, some, Option, List, [], ◌∷◌, arith, ◌==◌,
  if◌then◌else◌,
}
use prelink_cross.Bytes.{lsb}
use prelink_cross.Dso.{Dso, Shdr, addr_to_sec, holds_addr, find_sec}
use prelink_cross.Data.{M, pure}
use prelink_cross.X86_64.{same_name}
use prelink_cross.RelocSections.{
  Dynamic, RelocInfo, no_sections, rel_plt_name, is_plt, all_of_type, surrounded, find_dyn,
  check_plt, find_plt, last_dyn, store, join_plt, find_rest, find_reloc_sections,
}
use prelink_cross.RelocSections.Update.{
  Dyn, find_tag, run, retag, reldyn_steps, reldyn_holds, update_reldyn, start_at_plt, plt_steps,
  update_plt, still_overlaps, update_dynamic_rel,
}
use prelink_cross.RelocSections.Surrounded.{Surround}
use prelink_cross.RelocSections.FindsSections.{KeepsSections, find_reloc_sections-Surround}

abbrev section : List ℕ → ℕ → ℕ → ℕ → Shdr
section name type addr size = record {
  name = name;
  sh_type = type;
  sh_flags = if type == 0 then 0 else 2;
  sh_addr = addr;
  sh_offset = addr;
  sh_size = size;
  sh_addralign = 4;
}

abbrev object : Dso
object = record {
  elf64 = false;
  e_data = lsb;
  e_type = 3;
  e_machine = 3;
  e_entry = 0;
  phdr = [];
  shdr = section [] 0 0 0 ∷ section [] 9 0x100 16 ∷ section (rel_plt_name false) 9 0x110 8 ∷ [];
  scn = [] ∷ [] ∷ [] ∷ [];
  lastscn = 0;
  base = 0;
  end = 0x1000;
  adjust = [];
  dirty = [];
}

-- DT_REL, DT_RELSZ, DT_JMPREL, DT_PLTRELSZ and DT_PLTREL.
abbrev dynamic : ℕ → Dynamic
dynamic size = record {
  info = λ t.
      if t == 17
      then 0x100
      else if t == 18
      then size
      else if t == 23
      then 0x110
      else if t == 2
      then 8
      else if t == 20
      then 17
      else 0;
  is_set = λ t. t == 17;
}

abbrev both : RelocInfo
both = record {
  first = 1;
  last = some 1;
  plt = 2;
  overlap = true;
  reldyn_rela = false;
  plt_rela = false;
  rel_to_rela = true;
  rel_to_rela_plt = true;
}

-- An architecture that always converts.
abbrev always : Option (ℕ → ℕ → M Bool)
always = some (λ first last. pure true)

both_found :
    find_reloc_sections always (dynamic 24) object ≡ some (some both, record object { lastscn = 2 })
unfolding find_reloc_sections find_rest find_plt check_plt is_plt same_name find_dyn surrounded
    all_of_type join_plt store addr_to_sec holds_addr find_sec
both_found = refl

-- A range that ends within a section.
not_whole :
    find_reloc_sections always (dynamic 20) object ≡ some (none, record object { lastscn = 2 })
unfolding find_reloc_sections find_rest find_plt check_plt is_plt same_name find_dyn surrounded
    all_of_type join_plt store addr_to_sec holds_addr find_sec
not_whole = refl

always-KeepsSections : KeepsSections always
unfolding KeepsSections
always-KeepsSections = λ first last d b d' e. let p : d ≡ d' = cc e in ap (λ x. x.shdr) (sym p)

find_reloc_sections-Surround_example :
    (last : ℕ) × (some 1 ≡ last_dyn true last) × Surround object.shdr 9 0x100 0x118 1 last
find_reloc_sections-Surround_example =
    find_reloc_sections-Surround always (dynamic 24) object both (record object { lastscn = 2 })
      always-KeepsSections both_found (omega arith)

abbrev tag : ℕ → ℕ → Dyn
tag t v = record { d_tag = t; d_val = v }

abbrev of_rel : Dynamic
of_rel = record (dynamic 16) { info = λ t. if t == 19 then 8 else (dynamic 16).info t }

-- .rel.dyn has been converted, at a new address, and .rel.plt has not.
abbrev converted : List Shdr
converted = section [] 0 0 0 ∷ section [] 4 0x200 24 ∷ section (rel_plt_name false) 9 0x110 8 ∷ []

abbrev found_apart : RelocInfo
found_apart = record no_sections { first = 1; last = some 1; plt = 2; overlap = true }

update_dynamic_rel-converted :
    update_dynamic_rel false of_rel found_apart converted
      (tag 17 0x100 ∷ tag 18 16 ∷ tag 19 8 ∷ tag 23 0x110 ∷ tag 20 17 ∷ tag 0x6ffffffa 1 ∷ [])
    ≡ some (tag 7 0x200 ∷ tag 8 24 ∷ tag 9 12 ∷ tag 23 0x110 ∷ tag 20 17 ∷ tag 0x6ffffff9 1 ∷ [])
unfolding update_dynamic_rel still_overlaps update_plt plt_steps start_at_plt update_reldyn
    reldyn_holds reldyn_steps retag run find_tag
update_dynamic_rel-converted = refl
