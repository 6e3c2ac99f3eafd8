-- ===== src/Space/Extend.antt =====
-- find_readonly_space of src/space.c, the third way: the last PT_LOAD segment is extended, if its
-- .bss ends in the page in which the part that is in the file ends.
use prelink_cross.Base.{
  ℕ, suc, ◌-◌, Bool, ◌&&◌, not, Option, none, some, List, [], ◌∷◌, drop, get_elem?, set, bit_and,
  bit_xor, leb, ◌==◌, if◌then◌else◌, add64, sub64, not64,
}
use prelink_cross.Dso.{Shdr, Phdr, sht_progbits, sht_nobits, shf_tls, pt_load}
use prelink_cross.X86_64.{same_name, plt_name}
use prelink_cross.Space.{
  Image, round_up, insert_readonly_section, from_1, adjust_nonalloc, section_end, offset_in,
}

-- The last PT_LOAD segment with its number; `i` is the number of the first of the list.
unfoldable pub last_load : List Phdr → ℕ → Option (ℕ × Phdr) → Option (ℕ × Phdr)
last_load [] i ret = ret
last_load (p ∷ l) i ret = last_load l (suc i) (if p.p_type == pt_load then some (i, p) else ret)

-- The size in the file, once the first .plt of SHT_NOBITS is stored there.
unfoldable pub filesz_with_plt : Phdr → List Shdr → ℕ
filesz_with_plt p [] = p.p_filesz
filesz_with_plt p (s ∷ l) =
    let size = sub64 (section_end s) p.p_vaddr in
    if s.sh_type == sht_nobits
      && leb p.p_vaddr s.sh_addr
      && leb (section_end s) (add64 p.p_vaddr p.p_memsz)
      && same_name s.name plt_name
    then (if leb size p.p_filesz then p.p_filesz else size)
    else filesz_with_plt p l

abbrev pub same_page : ℕ → ℕ → ℕ → Bool
same_page page_size a b = bit_and (bit_xor a b) (not64 (sub64 page_size 1)) == 0

-- The first section from number `j` on that has none of the flags of the mask.
unfoldable pub first_without : ℕ → ℕ → List Shdr → ℕ
first_without mask j [] = j
first_without mask j (s ∷ l) =
    if bit_and s.sh_flags mask == 0 then j else first_without mask (suc j) l

-- The loop that stores .bss in the file, up to the first section that is neither allocated nor
-- written to.
unfoldable pub to_progbits : ℕ → List Shdr → List Shdr
to_progbits vaddr [] = []
to_progbits vaddr (s ∷ l) =
    let rest = to_progbits vaddr l in
    if bit_and s.sh_flags 3 == 0
    then s ∷ l
    else (if s.sh_type == sht_nobits && bit_and s.sh_flags shf_tls == 0 && leb vaddr s.sh_addr
        then record s { sh_type = sht_progbits }
        else s)
      ∷ rest

-- The header of section `n`, and `spare` for the memory behind the headers.
abbrev pub header_at : Shdr → List Shdr → ℕ → Shdr
header_at spare l n = elim (get_elem? l n) [ none ↦ spare | some s ↦ s ]

unfoldable pub extend : Shdr → Shdr → Image → ℕ → Phdr → ℕ × Image
extend spare add im i p =
    let j = first_without 3 1 (drop 1 im.shdr) in
    let l = from_1 (to_progbits p.p_vaddr) im.shdr in
    let start = round_up (section_end (header_at spare l (j - 1))) add.sh_addralign in
    let im' =
      insert_readonly_section (record im { shdr = l }) j
        (record add { sh_addr = start; sh_offset = offset_in p start }) in
    let filesz = sub64 (add64 start add.sh_size) p.p_vaddr in
    (
      j,
      adjust_nonalloc
          (record im' { phdr = set im.phdr i (record p { p_filesz = filesz; p_memsz = filesz }) }) 0
          0 (sub64 (add64 p.p_offset filesz) (header_at spare im'.shdr (suc j)).sh_offset),
    )

-- Every object has a PT_LOAD segment; without one the source reads before the headers, and this is
-- `none`.
unfoldable pub extend_last : ℕ → Shdr → Shdr → Image → Option (ℕ × Image)
extend_last page_size spare add im = elim (last_load im.phdr 0 none) [
  | none ↦ none
  | some (i, p) ↦
      let filesz = filesz_with_plt p (drop 1 im.shdr) in
      if not (p.p_filesz == 0)
        && leb filesz p.p_memsz
        && same_page page_size (sub64 (add64 p.p_vaddr p.p_memsz) 1)
            (sub64 (add64 p.p_vaddr filesz) 1)
      then some (extend spare add im i p)
      else none
]
