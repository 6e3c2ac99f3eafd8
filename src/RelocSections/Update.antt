-- ===== src/RelocSections/Update.antt =====
-- src/reloc.c: the conversion of a relocation section between REL and RELA, and
-- `update_dynamic_rel`, which then makes the tags of the dynamic section fit.
use prelink_cross.Base.{
  ℕ, suc, Bool, true, false, ◌&&◌, not, Option, none, some, List, [], ◌∷◌, ◌++◌, get_elem?, set,
  ◌==◌, if◌then◌else◌, add64, sub64,
}
use prelink_cross.Dso.{Shdr}
use prelink_cross.Data.{M, ◌>>=◌, pure}
use prelink_cross.Reloc.{Rel, Rela}
use prelink_cross.RelocSections.{Dynamic, RelocInfo, reloc_type}

-- The loop of both conversions, over the relocations that libelf yields: `convert` is the function
-- of the architecture.
unfoldable pub convert_all : {A B : Type 0} → (A → M B) → List A → M (List B)
convert_all convert [] = pure []
convert_all convert (r ∷ l) = convert r >>= (λ r'. convert_all convert l >>= (λ l'. pure (r' ∷ l')))

abbrev pub set_type : ℕ → ℕ → M (Unit {0})
set_type i type d = elim (get_elem? d.shdr i) [
  | none ↦ none
  | some s ↦ some (tt, record d { shdr = set d.shdr i (record s { sh_type = type }) })
]

-- Section `i`, with the relocations in it; a failure is `none`.
unfoldable pub convert_rel_to_rela : (Rel → M Rela) → ℕ → List Rel → M (List Rela)
convert_rel_to_rela rel_to_rela i l =
    convert_all rel_to_rela l >>= (λ l'. set_type i (reloc_type true) >>= (λ u. pure l'))

unfoldable pub convert_rela_to_rel : (Rela → M Rel) → ℕ → List Rela → M (List Rel)
convert_rela_to_rel rela_to_rel i l =
    convert_all rela_to_rel l >>= (λ l'. set_type i (reloc_type false) >>= (λ u. pure l'))

-- `GElf_Dyn`.
pub record Dyn : Type 0 where
  pub d_tag : ℕ
  pub d_val : ℕ

-- DT_RELCOUNT and DT_RELACOUNT.
abbrev pub dt_count : Bool → ℕ
dt_count rela = if rela then 0x6ffffff9 else 0x6ffffffa

-- DT_RELA, DT_RELASZ and DT_RELAENT, or DT_REL, DT_RELSZ and DT_RELENT.
abbrev pub dt_start : Bool → ℕ
dt_start rela = if rela then 7 else 17

abbrev pub dt_size : Bool → ℕ
dt_size rela = if rela then 8 else 18

abbrev pub dt_entry : Bool → ℕ
dt_entry rela = if rela then 9 else 19

-- The size of an entry, as the ELF standard has it.
abbrev pub entry_size : Bool → Bool → ℕ
entry_size elf64 rela = if elf64 then (if rela then 24 else 16) else (if rela then 12 else 8)

-- The pointer that the first loop leaves for a tag: the last entry with it.
unfoldable pub find_tag : ℕ → List Dyn → ℕ → Option ℕ → Option ℕ
find_tag tag [] i ret = ret
find_tag tag (e ∷ l) i ret = find_tag tag l (suc i) (if e.d_tag == tag then some i else ret)

-- A change of the entry at a pointer; through a null pointer, `none`.
abbrev pub Step : Type 0
Step = List Dyn → Option (List Dyn)

abbrev pub change : (Dyn → Dyn) → Option ℕ → Step
change f none l = none
change f (some i) l = elim (get_elem? l i) [ none ↦ none | some e ↦ some (set l i (f e)) ]

abbrev pub set_val : ℕ → Option ℕ → Step
set_val val = change (λ e. record e { d_val = val })

abbrev pub set_tag : ℕ → Option ℕ → Step
set_tag tag = change (λ e. record e { d_tag = tag })

-- `if (info_DT_RELCOUNT) ...`, or with DT_RELACOUNT.
abbrev pub set_tag_if : ℕ → Option ℕ → Step
set_tag_if tag none l = some l
set_tag_if tag (some i) l = set_tag tag (some i) l

unfoldable pub run : List Step → Step
run [] l = some l
run (step ∷ steps) l = elim (step l) [ none ↦ none | some l' ↦ run steps l' ]

-- What is given: the class, the values of the dynamic section as they were read, the headers and
-- the entries up to DT_NULL.
module _ (elf64 : Bool) (y : Dynamic) (r : RelocInfo) (shdr : List Shdr) (entries : List Dyn) where
  abbrev pub pointer : ℕ → Option ℕ
  pointer tag = find_tag tag entries 0 none

  -- The tags of RELA in place of those of REL, or the other way round.
  unfoldable pub retag : Bool → List Step
  retag rela =
      set_val (entry_size elf64 rela) (pointer (dt_entry (not rela)))
      ∷ set_tag (dt_start rela) (pointer (dt_start (not rela)))
      ∷ set_tag (dt_size rela) (pointer (dt_size (not rela)))
      ∷ set_tag (dt_entry rela) (pointer (dt_entry (not rela)))
      ∷ set_tag_if (dt_count rela) (pointer (dt_count (not rela)))
      ∷ []

  -- The relocations that are not the PLT's, or begin with it: the first section and the last.
  unfoldable pub reldyn_steps : Shdr → Shdr → List Step
  reldyn_steps first last =
      set_val first.sh_addr (pointer (dt_start r.reldyn_rela))
      ∷ set_val (sub64 (add64 last.sh_addr last.sh_size) first.sh_addr)
          (pointer (dt_size r.reldyn_rela))
      ∷ (if first.sh_type == reloc_type (not r.reldyn_rela) then retag (not r.reldyn_rela) else [])

  -- The three `assert`s.
  unfoldable pub reldyn_holds : Bool
  reldyn_holds =
      y.info (dt_entry r.reldyn_rela) == entry_size elf64 r.reldyn_rela
      && not (y.info (dt_start r.reldyn_rela) == 0)
      && not (y.info (dt_size r.reldyn_rela) == 0)

  unfoldable pub update_reldyn : Bool → Step
  update_reldyn overlap l =
      if r.first == 0 && not (not (r.plt == 0) && overlap)
      then some l
      else if reldyn_holds
      then elim (get_elem? shdr (if r.first == 0 then r.plt else r.first)) [
        | none ↦ none
        | some first ↦
            elim (if not (r.plt == 0) && overlap
              then get_elem? shdr r.plt
              else elim r.last [ none ↦ none | some n ↦ get_elem? shdr n ]) [
                | none ↦ none
                | some last ↦ run (reldyn_steps first last) l
              ]
      ]
      else none

  -- Without other relocations, their tag points to the PLT's, if it is there and not 0.
  unfoldable pub start_at_plt : Shdr → Bool → Step
  start_at_plt s overlap l =
      if r.first == 0 && not overlap
      then elim (pointer (dt_start r.reldyn_rela)) [
        | none ↦ some l
        | some i ↦ elim (get_elem? l i) [
          | none ↦ none
          | some e ↦ if e.d_val == 0 then some l else set_val s.sh_addr (some i) l
        ]
      ]
      else some l

  -- DT_JMPREL, DT_PLTREL and DT_PLTRELSZ.
  unfoldable pub plt_steps : Shdr → Bool → List Step
  plt_steps s overlap =
      set_val s.sh_addr (pointer 23)
        ∷ (if s.sh_type == reloc_type (not r.plt_rela)
            then set_val (dt_start (not r.plt_rela)) (pointer 20)
              ∷ set_val s.sh_size (pointer 2)
              ∷ []
            else [])
      ++ start_at_plt s overlap ∷ []

  -- The second `assert` is `(a == b) ? DT_RELA : DT_REL`, which never fails.
  unfoldable pub update_plt : Bool → Step
  update_plt overlap l =
      if r.plt == 0
      then some l
      else if y.info 23 == 0
      then none
      else elim (get_elem? shdr r.plt) [ none ↦ none | some s ↦ run (plt_steps s overlap) l ]

  -- An overlap ends where the PLT has been converted and the rest has not, or the other way round.
  unfoldable pub still_overlaps : Option Bool
  still_overlaps =
      if not (r.first == 0) && not (r.plt == 0) && r.overlap
      then elim (get_elem? shdr r.first) [
        | none ↦ none
        | some s ↦ elim (get_elem? shdr r.plt) [
          | none ↦ none
          | some t ↦ some (s.sh_type == t.sh_type)
        ]
      ]
      else some r.overlap

  -- The entries that are written back.
  unfoldable pub update_dynamic_rel : Option (List Dyn)
  update_dynamic_rel = elim still_overlaps [
    | none ↦ none
    | some overlap ↦ run (update_reldyn overlap ∷ update_plt overlap ∷ []) entries
  ]
