-- ===== src/Space/Gap.antt =====
-- find_readonly_space of src/space.c, the second way: a gap between the sections of a segment that is
-- not written to, or behind them.
use prelink_cross.Base.{
  ℕ, suc, ◌-◌, ◌*◌, Bool, true, ◌&&◌, ◌||◌, Option, none, some, List, [], ◌∷◌, length, drop, set,
  leb, ltb, ◌==◌, if◌then◌else◌, add64, sub64,
}
use prelink_cross.Dso.{Shdr, Phdr}
use prelink_cross.Space.{
  Image, round_up, insert_readonly_section, adjust_nonalloc, is_alloc, is_readonly, section_end,
  file_end, offset_in, first_such,
}

-- The size of PT_PHDR, if it holds the table of the program headers, and that of the table otherwise.
unfoldable pub headers_size : Image → ℕ
headers_size im =
    let table = length im.phdr * im.e_phentsize in
    elim (first_such (λ q. q.p_type == 6 && q.p_offset == im.e_phoff && leb table q.p_filesz)
      im.phdr) [ none ↦ table | some q ↦ q.p_filesz ]

-- The address behind the program headers, if they are in the segment, and its start otherwise.
unfoldable pub behind_headers : Image → Phdr → ℕ
behind_headers im p =
    if ltb p.p_offset im.e_phoff
    then sub64 (add64 (add64 p.p_vaddr im.e_phoff) (headers_size im)) p.p_offset
    else p.p_vaddr

-- An allocated section that lies in the part of the segment that is in the file.
unfoldable pub in_segment : Phdr → Shdr → Bool
in_segment p s = is_alloc s && leb p.p_vaddr s.sh_addr && leb (section_end s) (file_end p)

-- The loop over the sections: `start`, and `after`, the section that the new one follows. `j` is
-- the number of the first section of the list.
abbrev pub scan_one : ℕ → ℕ → Shdr → ℕ → ℕ × Option ℕ → ℕ × Option ℕ
scan_one align size s j (start, after) =
    if ltb s.sh_addr (add64 start size)
    then (round_up (section_end s) align, some j)
    else (start, elim after [ none ↦ some (j - 1) | some a ↦ some a ])

unfoldable pub scan : Phdr → ℕ → ℕ → List Shdr → ℕ → ℕ × Option ℕ → ℕ × Option ℕ
scan p align size [] j st = st
scan p align size (s ∷ l) j st =
    scan p align size l (suc j) (if in_segment p s then scan_one align size s j st else st)

-- The lowest offset of a later segment that is behind this one in the file.
unfoldable pub next_offset : Phdr → List Phdr → Option ℕ → Option ℕ
next_offset p [] min = min
next_offset p (q ∷ l) min = next_offset p l (
    if leb (add64 p.p_offset p.p_filesz) q.p_offset
      && elim min [ none ↦ true | some o ↦ ltb q.p_offset o ]
    then some q.p_offset
    else min)

-- Whether the segment has room up to `end`, perhaps by growing up to the next one.
unfoldable pub has_room : Phdr → List Phdr → ℕ → Bool
has_room p later end =
    leb end (file_end p)
    || p.p_filesz == p.p_memsz
      && elim (next_offset p later none) [ none ↦ true | some o ↦ leb (sub64 end p.p_vaddr) o ]

-- The insertion, in segment `p` of number `i`, behind section `after`, at `start`.
unfoldable pub place_in_segment : Shdr → Image → ℕ → Phdr → ℕ → ℕ → ℕ × Image
place_in_segment add im i p after start =
    let end = add64 start add.sh_size in
    let im' =
      insert_readonly_section im (suc after)
        (record add { sh_addr = start; sh_offset = offset_in p start }) in
    (
      suc after,
      (if ltb (file_end p) end
          then record (adjust_nonalloc im' 0 0 (sub64 (sub64 end p.p_vaddr) p.p_filesz)) {
            phdr =
                set im.phdr i
                  (record p { p_filesz = sub64 end p.p_vaddr; p_memsz = sub64 end p.p_vaddr });
          }
          else im'),
    )

unfoldable pub place_if_room :
    Shdr → Image → ℕ → Phdr → List Phdr → ℕ × Option ℕ → Option (ℕ × Image)
place_if_room add im i p later (start, none) = none
place_if_room add im i p later (start, some after) =
    if has_room p later (add64 start add.sh_size)
    then some (place_in_segment add im i p after start)
    else none

unfoldable pub try_segment : Shdr → Image → ℕ → Phdr → List Phdr → Option (ℕ × Image)
try_segment add im i p later = place_if_room add im i p later (
    scan p add.sh_addralign add.sh_size (drop 1 im.shdr) 1
      (round_up (behind_headers im p) add.sh_addralign, none))

-- The second way: the segments from number `i` on.
unfoldable pub in_gap : Shdr → Image → ℕ → List Phdr → Option (ℕ × Image)
in_gap add im i [] = none
in_gap add im i (p ∷ l) =
    let rest = in_gap add im (suc i) l in
    if is_readonly p
    then elim (try_segment add im i p l) [ none ↦ rest | some r ↦ some r ]
    else rest
