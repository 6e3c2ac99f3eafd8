-- ===== src/Space/Sides.antt =====
-- Where src/space.c puts a section that goes into a gap of a segment that is not written to.
use prelink_cross.Base.{
  ℕ, suc, ◌+◌, ◌^◌, ◌%◌, ◌<◌, ◌≤◌, ◌≡◌, refl, sym, ◌∙◌, subst, true, Option, none, some, List, [],
  ◌∷◌, ◌++◌, map, take, drop, set, ◌⊎◌, All, inl, inr, ltb, add64, sub64, Bool-cases, arith,
}
use prelink_cross.Dso.{Shdr, Phdr}
use prelink_cross.Space.{Image, round_up, insert_readonly_section, is_readonly, offset_in, file_end}
use prelink_cross.Space.Gap.{
  headers_size, behind_headers, scan, has_room, place_in_segment, place_if_room, try_segment,
  in_gap,
}
use prelink_cross.Space.Align.{round_up-parts}
use prelink_cross.Space.Room.{
  IsClear, has_room-IsClear, IsBehindTable, behind_headers-IsBehindTable,
}
use prelink_cross.Space.Unplaced.{unplaced, unplaced-adjust_nonalloc, map-insert}
use prelink_cross.Space.Scan.{Sides, InOrder, Splits, scan-Splits}

-- The segment numbered `i` has the section, which ends at `end`: as it was, or grown up to `end`,
-- for which it may have no .bss and must end before the later segments that are behind it in the file
-- start, by the rule of the source.
abbrev pub Holds : Image → Image → ℕ → Phdr → List Phdr → ℕ → Type 0
Holds im im' i p later end =
    (im'.phdr ≡ im.phdr) × (end ≤ p.p_vaddr + p.p_filesz)
    ⊎ (filesz : ℕ) × (im'.phdr ≡ set im.phdr i (record p { p_filesz = filesz; p_memsz = filesz }))
      × (p.p_vaddr + filesz ≡ end)
      × (p.p_filesz < filesz)
      × (p.p_filesz ≡ p.p_memsz)
      × IsClear p filesz later

-- The section `add` is inserted as number `n`, at an aligned address of the segment, behind the table
-- of the program headers, between the sections of the segment that are below number `n` and the
-- others.
abbrev pub Placed : Shdr → ℕ → Image → ℕ → Image → ℕ → Phdr → List Phdr → Type 0
Placed add k im n im' i p later =
    (is_readonly p ≡ true)
    × (start : ℕ) × (start % 2 ^ k ≡ 0)
    × IsBehindTable im p start
    × Holds im im' i p later (start + add.sh_size)
    × Sides p add.sh_size start n 1 (drop 1 im.shdr)
    × (map unplaced im'.shdr
        ≡ map unplaced (take n im.shdr ++ record add { sh_addr = start } ∷ drop n im.shdr))

-- Some segment of the list, whose first one is numbered `i`.
abbrev pub PlacedFrom : Shdr → ℕ → Image → ℕ → Image → ℕ → List Phdr → Type 0
PlacedFrom add k im n im' i [] = ⊥
PlacedFrom add k im n im' i (p ∷ l) =
    Placed add k im n im' i p l ⊎ PlacedFrom add k im n im' (suc i) l

abbrev pub PlacedIn : Shdr → ℕ → Image → ℕ → List Phdr → Option (ℕ × Image) → Type 0
PlacedIn add k im i l none = Unit
PlacedIn add k im i l (some (n, im')) = PlacedFrom add k im n im' i l

module _ (add : Shdr) (k : ℕ) (im : Image) where
  -- The addresses and offsets of the segment and of the sections in it do not wrap around, and these
  -- lie behind the program headers and come in order.
  abbrev pub Fits : Phdr → Type 0
  Fits p =
      (behind_headers im p + 2 ^ k + add.sh_size < 2 ^ 64)
      × (p.p_vaddr + im.e_phoff + headers_size im < 2 ^ 64)
      × (p.p_vaddr + p.p_filesz < 2 ^ 64)
      × (p.p_offset + p.p_filesz < 2 ^ 64)
      × InOrder p k add.sh_size (behind_headers im p) (drop 1 im.shdr)

  unplaced-place_in_segment :
      (i : ℕ) (p : Phdr) (after start : ℕ)
      → map unplaced (place_in_segment add im i p after start).1.shdr
        ≡ map unplaced
            (take (suc after) im.shdr ++ record add { sh_addr = start } ∷ drop (suc after) im.shdr)
  unfolding place_in_segment insert_readonly_section
  unplaced-place_in_segment i p after start =
      let s = record add { sh_addr = start; sh_offset = offset_in p start } in
      let e =
        map-insert unplaced s (record add { sh_addr = start }) (take (suc after) im.shdr)
          (drop (suc after) im.shdr) refl in
      elim (Bool-cases (ltb (file_end p) (add64 start add.sh_size))) [
        | inl c ↦ rw c (
            unplaced-adjust_nonalloc (insert_readonly_section im (suc after) s) 0 0
              (sub64 (sub64 (add64 start add.sh_size) p.p_vaddr) p.p_filesz)
            ∙ e)
        | inr c ↦ rw c e
      ]

  Holds-place_in_segment :
      (i : ℕ) (p : Phdr) (later : List Phdr) (after start : ℕ)
      → p.p_vaddr + p.p_filesz < 2 ^ 64
      → p.p_vaddr ≤ start
      → start + add.sh_size < 2 ^ 64
      → (start + add.sh_size ≤ p.p_vaddr + p.p_filesz)
        ⊎ (p.p_filesz ≡ p.p_memsz) × IsClear p (sub64 (start + add.sh_size) p.p_vaddr) later
      → Holds im (place_in_segment add im i p after start).1 i p later (start + add.sh_size)
  unfolding place_in_segment insert_readonly_section
  Holds-place_in_segment i p later after start fits ge lt room =
      let end : add64 start add.sh_size ≡ start + add.sh_size = omega arith in
      elim (Bool-cases (ltb (file_end p) (add64 start add.sh_size))) [
        | inr c ↦ rw c (inl (refl, ground arith))
        | inl c ↦ elim room [
          | inl le ↦ absurd (ground arith)
          | inr (same, clear) ↦
              let clear' = subst (λ t. IsClear p (sub64 t p.p_vaddr) later) (sym end) clear in
              rw c (
                inr (
                  sub64 (add64 start add.sh_size) p.p_vaddr,
                  refl,
                  omega arith,
                  ground arith,
                  same,
                  clear',
                ))
        ]
      ]

  abbrev FoundIn : ℕ → Phdr → List Phdr → Option (ℕ × Image) → Type 0
  FoundIn i p later none = Unit
  FoundIn i p later (some (n, im')) = Placed add k im n im' i p later

  place_if_room-FoundIn :
      (i : ℕ) (p : Phdr) (later : List Phdr) (r : ℕ × Option ℕ)
      → is_readonly p ≡ true
      → Fits p
      → Splits p k add.sh_size (behind_headers im p) 1 (drop 1 im.shdr) r
      → FoundIn i p later (place_if_room add im i p later r)
  unfolding place_if_room place_in_segment
  place_if_room-FoundIn i p later (start, none) ro fits h = tt
  place_if_room-FoundIn i p later (start, some after) ro fits ((al, low, lt), sides) =
      let end : add64 start add.sh_size ≡ start + add.sh_size = omega arith in
      let table = behind_headers-IsBehindTable im p start fits.1 low in
      elim (Bool-cases (has_room p later (add64 start add.sh_size))) [
        | inr c ↦ rw c tt
        | inl c ↦
            let room =
              subst
                (λ t.
                  (t ≤ p.p_vaddr + p.p_filesz)
                  ⊎ (p.p_filesz ≡ p.p_memsz) × IsClear p (sub64 t p.p_vaddr) later)
                end (has_room-IsClear p later (add64 start add.sh_size) fits.3 fits.2 c) in
            rw c (
              ro,
              start,
              al,
              table,
              Holds-place_in_segment i p later after start fits.2 table.0 lt room,
              sides,
              unplaced-place_in_segment i p after start,
            )
      ]

  try_segment-FoundIn :
      (i : ℕ) (p : Phdr) (later : List Phdr)
      → is_readonly p ≡ true
      → k ≤ 63
      → add.sh_addralign ≡ 2 ^ k
      → Fits p
      → FoundIn i p later (try_segment add im i p later)
  unfolding try_segment
  try_segment-FoundIn i p later ro hk al fits =
      let room : behind_headers im p + 2 ^ k + add.sh_size < 2 ^ 64 = fits.0 in
      let parts = round_up-parts k (behind_headers im p) hk (omega arith) in
      subst
        (λ a. FoundIn i p later (
          place_if_room add im i p later
            (scan p a add.sh_size (drop 1 im.shdr) 1 (round_up (behind_headers im p) a, none))))
        (sym al)
        (place_if_room-FoundIn i p later _ ro fits (
          scan-Splits p k add.sh_size (behind_headers im p) (drop 1 im.shdr) 1 _ hk (omega arith)
            fits.4 (parts.0, parts.1, omega (arith, parts.2))))

  PlacedIn-later :
      (i : ℕ) (p : Phdr) (l : List Phdr) (r : Option (ℕ × Image))
      → PlacedIn add k im (suc i) l r
      → PlacedIn add k im i (p ∷ l) r
  PlacedIn-later i p l none h = tt
  PlacedIn-later i p l (some (n, im')) h = inr h

  PlacedIn-first :
      (i : ℕ) (p : Phdr) (l : List Phdr) (r rest : Option (ℕ × Image))
      → FoundIn i p l r
      → PlacedIn add k im (suc i) l rest
      → PlacedIn add k im i (p ∷ l) (elim r [ none ↦ rest | some r' ↦ some r' ])
  PlacedIn-first i p l none rest found h = PlacedIn-later i p l rest h
  PlacedIn-first i p l (some (n, im')) rest found h = inl found

  -- Let the alignment of `add` be a power of two. For every segment, let its addresses and offsets
  -- not wrap around, with room for the size and the alignment of `add`, and the sections in it lie behind the program headers and come in the order of
  -- their addresses without overlap. Then a section that goes into a gap is inserted with an aligned
  -- address of a segment that is not written to, behind the table of the program headers if that
  -- starts in the segment. The segment holds the section up to its end. It is as it was, or had as
  -- many bytes in the file as in memory and ends with the section now; it then has no more bytes in
  -- the file than the offset of any later segment that is behind it in the file. The sections of the
  -- segment before the new one end at its address or below, those after it start at its end or above;
  -- all section headers but the new one keep all but their offsets.
  pub in_gap-PlacedIn :
      (i : ℕ) (l : List Phdr)
      → k ≤ 63
      → add.sh_addralign ≡ 2 ^ k
      → All Fits l
      → PlacedIn add k im i l (in_gap add im i l)
  unfolding in_gap
  in_gap-PlacedIn i [] hk al h = tt
  in_gap-PlacedIn i (p ∷ l) hk al (fit, fits) =
      let rest = in_gap-PlacedIn (suc i) l hk al fits in
      elim (Bool-cases (is_readonly p)) [
        | inr c ↦ rw c (PlacedIn-later i p l _ rest)
        | inl c ↦ rw c (PlacedIn-first i p l _ _ (try_segment-FoundIn i p l c hk al fit) rest)
      ]
