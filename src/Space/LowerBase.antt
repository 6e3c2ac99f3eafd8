-- ===== src/Space/LowerBase.antt =====
-- find_readonly_space of src/space.c, the fourth way: the first segment starts at a lower address,
-- and the sections at its start move down with it.
use prelink_cross.Base.{
  ℕ, suc, ◌-◌, ◌*◌, Bool, true, false, ◌&&◌, ◌||◌, not, Option, none, some, List, [], ◌∷◌, ◌++◌,
  map, length, take, drop, bit_and, bit_xor, leb, ltb, ◌==◌, if◌then◌else◌, add64, sub64, u64,
  not64,
}
use prelink_cross.Dso.{Shdr, Phdr, pt_load}
use prelink_cross.X86_64.{same_name}
use prelink_cross.Space.{
  Image, round_up, insert_readonly_section, from_1, adjust_nonalloc, section_end, file_end,
}
use prelink_cross.Space.Extend.{header_at}

-- ".interp".
abbrev pub interp_name : List ℕ
interp_name = 46 ∷ 105 ∷ 110 ∷ 116 ∷ 101 ∷ 114 ∷ 112 ∷ []

abbrev pub is_one_of : ℕ → List ℕ → Bool
is_one_of x [] = false
is_one_of x (y ∷ l) = x == y || is_one_of x l

-- The section types of the source, from SHT_HASH to SHT_GNU_LIBLIST.
abbrev pub movable_types : List ℕ
movable_types =
    5 ∷ 0x6ffffff6 ∷ 11 ∷ 9 ∷ 4 ∷ 3 ∷ 7 ∷ 0x6ffffffd ∷ 0x6ffffffe ∷ 0x6fffffff ∷ 0x6ffffff7 ∷ []

unfoldable pub readonly_is_movable : Shdr → Bool
readonly_is_movable s =
    not (bit_and s.sh_flags 3 == 0)
    && (is_one_of s.sh_type movable_types || same_name s.name interp_name)

-- The first section from number `j` on that is neither .interp nor a note.
unfoldable pub after_notes : ℕ → List Shdr → ℕ
after_notes j [] = j
after_notes j (s ∷ l) =
    if not (same_name s.name interp_name) && not (s.sh_type == 7) then j else after_notes (suc j) l

-- SHT_RELA counts as SHT_REL.
abbrev pub kind_of : Shdr → ℕ
kind_of s = if s.sh_type == 4 then 9 else s.sh_type

-- Whether a section may go between two: not between adjacent relocation sections, nor notes.
unfoldable pub may_part : Shdr → Shdr → Bool
may_part prev s =
    not (kind_of prev == kind_of s)
    || not (kind_of prev == 9) && not (kind_of prev == 7)
    || not (add64 prev.sh_addr (round_up prev.sh_size 4) == s.sh_addr)

-- The section that `add` is to come before; `prev` is the section before number `k`, and `none` is
-- `e_shnum`.
unfoldable pub find_place : Shdr → Shdr → List Shdr → ℕ → Option ℕ
find_place add prev [] k = none
find_place add prev (s ∷ l) k =
    let rest = find_place add s l (suc k) in
    if bit_and s.sh_flags 3 == 0
    then none
    else if ltb add.sh_addr s.sh_addr && may_part prev s
    then some k
    else if readonly_is_movable s
    then rest
    else none

-- `moveend`, with the stores into the `struct readonly_adjust`.
unfoldable pub find_moveend : Shdr → Image → ℕ × Image
find_moveend spare im =
    let moveend = after_notes 1 (drop 1 im.shdr) in
    if not (im.basemove_end == 0)
    then (im.moveend, im)
    else if ltb moveend (length im.shdr) && ltb 1 moveend
    then (
      moveend,
      record im { basemove_end = (header_at spare im.shdr moveend).sh_addr; moveend = moveend },
    )
    else (moveend, im)

-- `k`, `adj` and `move2`. An `assert` that fails is `none`.
unfoldable pub choose_place : Shdr → Shdr → Image → Phdr → ℕ → ℕ → Option (ℕ × ℕ × Bool)
choose_place spare add im p moveend addr =
    let keep = some (moveend, addr, im.move2) in
    if not (add.sh_addr == 0)
      && not im.move2
      && leb p.p_vaddr add.sh_addr
      && ltb add.sh_addr (file_end p)
    then elim (find_place add (header_at spare im.shdr (moveend - 1)) (drop moveend im.shdr)
        moveend) [
          | none ↦ keep
          | some k ↦
              let gap =
                sub64 (header_at spare im.shdr k).sh_addr
                  (section_end (header_at spare im.shdr (k - 1))) in
              let a = round_up (sub64 add.sh_size gap) p.p_align in
              if leb add.sh_addralign p.p_align && ltb gap add.sh_size
              then (if ltb a addr then some (k, a, true) else keep)
              else none
        ]
    else keep

-- The segments, from number `j` on; `i` is the number of the first PT_LOAD segment, and `end` of
-- what has moved.
unfoldable pub lower_segments : ℕ → ℕ → ℕ → ℕ → List Phdr → List Phdr
lower_segments i adj end j [] = []
lower_segments i adj end j (p ∷ l) =
    (if j == i
      then record p {
        p_vaddr = sub64 p.p_vaddr adj;
        p_paddr = sub64 p.p_paddr adj;
        p_filesz = add64 p.p_filesz adj;
        p_memsz = add64 p.p_memsz adj;
      }
      else if p.p_type == 0x6474e551
      then p
      else if ltb p.p_vaddr end
      then record p { p_vaddr = sub64 p.p_vaddr adj; p_paddr = sub64 p.p_paddr adj }
      else record p { p_offset = add64 p.p_offset adj })
    ∷ lower_segments i adj end (suc j) l

-- Sections 1 to `k - 1`.
unfoldable pub lower_sections : ℕ → ℕ → List Shdr → List Shdr
lower_sections adj k = from_1 (λ l.
    map (λ (s : Shdr). record s { sh_addr = sub64 s.sh_addr adj }) (take (k - 1) l)
    ++ drop (k - 1) l)

unfoldable pub move_base : Shdr → Shdr → Image → ℕ → Phdr → ℕ → ℕ × ℕ × Bool → ℕ × Image
move_base spare add im i p moveend (k, adj, move2) =
    let l = lower_sections adj k im.shdr in
    let addr =
      if k == moveend
      then round_up (section_end (header_at spare l (k - 1))) add.sh_addralign
      else bit_and (sub64 (header_at spare l k).sh_addr add.sh_size)
          (not64 (sub64 add.sh_addralign 1)) in
    let im' =
      insert_readonly_section
        (record im {
          phdr = lower_segments i adj (sub64 im.basemove_end im.basemove_adjust) 0 im.phdr;
          shdr = l;
          basemove_adjust = add64 im.basemove_adjust adj;
          move2 = move2;
        })
        k
        (record add {
          sh_addr = addr;
          sh_offset = add64 (sub64 addr (sub64 p.p_vaddr adj)) p.p_offset;
        }) in
    (k, adjust_nonalloc im' 0 0 adj)

-- The first PT_LOAD segment with its number.
unfoldable pub first_load : List Phdr → ℕ → Option (ℕ × Phdr)
first_load [] i = none
first_load (p ∷ l) i = if p.p_type == pt_load then some (i, p) else first_load l (suc i)

-- Whether the segment may start `addr` bytes lower.
unfoldable pub may_lower : ℕ → Phdr → ℕ → Bool
may_lower page_size p addr =
    let lower = sub64 p.p_vaddr addr in
    leb p.p_align page_size
    && p.p_flags == 5
    && p.p_filesz == p.p_memsz
    && not (lower == 0)
    && bit_and (bit_xor lower p.p_vaddr) (not64 (sub64 (u64 (p.p_align * 256)) 1)) == 0

-- The number of the section, if this way is taken, and the headers, in which `moveend` may have been
-- found although it is not taken. `none` is an `assert` that fails; every object has a PT_LOAD
-- segment.
unfoldable pub lower_base : ℕ → Shdr → Shdr → Image → Option (Option ℕ × Image)
lower_base page_size spare add im = elim (first_load im.phdr 0) [
  | none ↦ none
  | some (i, p) ↦
      let addr = round_up (sub64 (add64 add.sh_size add.sh_addralign) 1) p.p_align in
      if may_lower page_size p addr
      then (let (moveend, im') = find_moveend spare im in
          if ltb moveend (length im'.shdr)
            && ltb 1 moveend
            && not (bit_and (header_at spare im'.shdr moveend).sh_flags 3 == 0)
          then elim (choose_place spare add im' p moveend addr) [
            | none ↦ none
            | some c ↦ let (n, im'') = move_base spare add im' i p moveend c in some (some n, im'')
          ]
          else some (none, im'))
      else some (none, im)
]
