-- ===== src/Space/NewSegment.antt =====
-- find_readonly_space of src/space.c, the fifth way: a new PT_LOAD segment, once there is room for
-- its header. The part that makes room by moving sections away from the table of the headers is not
-- here.
use prelink_cross.Base.{
  ℕ, suc, ◌-◌, ◌*◌, Option, none, some, List, [], ◌∷◌, ◌++◌, map, length, take, drop, bit_and, ltb,
  ◌==◌, if◌then◌else◌, add64, sub64,
}
use prelink_cross.Dso.{Shdr, Phdr, pt_load}
use prelink_cross.Space.{Image, round_up, insert_readonly_section, adjust_nonalloc}
use prelink_cross.Space.Extend.{last_load, first_without}

-- The number of the first PT_NULL entry.
unfoldable pub first_null : List Phdr → ℕ → Option ℕ
first_null [] j = none
first_null (p ∷ l) j = if p.p_type == 0 then some j else first_null l (suc j)

-- The `memmove` to the start of the table of what is behind entry `j`, and the lower count.
unfoldable pub drop_entry : List Phdr → ℕ → List Phdr
drop_entry l j = let rest = drop (suc j) l in take (length l - 1) (rest ++ drop (length rest) l)

-- PT_PHDR grows by one entry if it is as long as the table.
unfoldable pub grow_table : ℕ → ℕ → Phdr → Phdr
grow_table table entry p =
    if p.p_type == 6
    then record p {
      p_filesz = if p.p_filesz == table then add64 p.p_filesz entry else p.p_filesz;
      p_memsz = if p.p_memsz == table then add64 p.p_memsz entry else p.p_memsz;
    }
    else p

-- The segment behind `p`, for the section.
unfoldable pub new_load : Shdr → Phdr → Phdr
new_load add p =
    let offset = round_up (add64 p.p_offset p.p_filesz) add.sh_addralign in
    let vaddr =
      add64 (round_up (add64 p.p_vaddr p.p_memsz) p.p_align) (bit_and offset (sub64 p.p_align 1)) in
    record {
      p_type = pt_load;
      p_flags = 6;
      p_offset = offset;
      p_vaddr = vaddr;
      p_paddr = vaddr;
      p_filesz = add.sh_size;
      p_memsz = add.sh_size;
      p_align = p.p_align;
    }

-- The `assert` that a section without flags is there fails as `none`, as do headers without
-- PT_LOAD, which no object has.
unfoldable pub new_segment : Shdr → Image → Option (ℕ × Image)
new_segment add im =
    let entry = im.e_phentsize in
    let phdr = map (grow_table (length im.phdr * entry) entry) im.phdr in
    let i = first_without 7 1 (drop 1 im.shdr) in
    elim (last_load phdr 0 none) [
      | none ↦ none
      | some (j, p) ↦
          let q = new_load add p in
          let im' =
            insert_readonly_section im i
              (record add { sh_addr = q.p_vaddr; sh_offset = q.p_offset }) in
          if ltb i (length im.shdr)
          then some (
            i,
            adjust_nonalloc (record im' { phdr = take (suc j) phdr ++ q ∷ drop (suc j) phdr }) 0 0
                (sub64 (sub64 (add64 q.p_offset q.p_filesz) p.p_offset) p.p_filesz),
          )
          else none
    ]
