-- ===== src/Space/Tests.antt =====
-- Runs of the search for read-only space, and the theorems at concrete headers.
use prelink_cross.Base.{
  ℕ, ◌≤◌, ◌≡◌, refl, inl, inr, ◌%◌, true, false, Option, none, some, List, [], ◌∷◌, map, drop, take,
  arith,
}
use prelink_cross.Dso.{Shdr, Phdr}
use prelink_cross.Space.{
  Image, round_up, insert_readonly_section, adjust_nonalloc, table_adjust, aligned_adjust,
  move_behind,
}
use prelink_cross.Space.Gap.{
  scan, in_gap, in_segment, try_segment, next_offset, place_if_room, place_in_segment, has_room,
  headers_size, behind_headers,
}
use prelink_cross.Space.Scan.{InOrder}
use prelink_cross.Space.NewSegment.{drop_entry, new_load}
use prelink_cross.Space.LostEntries.{drop_entry-lost}
use prelink_cross.Space.Loadable.{IsLoadableBehind, new_load-IsLoadableBehind}
use prelink_cross.Space.Shift.{MovesBehind, adjust_nonalloc-MovesBehind}
use prelink_cross.Space.Sides.{PlacedIn, in_gap-PlacedIn}
use prelink_cross.Space.Unaligned.{adjust_nonalloc-unaligned}

-- An allocated section, by address, size and alignment.
abbrev section : ℕ → ℕ → ℕ → Shdr
section addr size align = record {
  name = [];
  sh_type = 1;
  sh_flags = 2;
  sh_addr = addr;
  sh_offset = addr;
  sh_size = size;
  sh_addralign = align;
}

abbrev plain : ℕ → ℕ → Shdr
plain offset align = record (section 0 16 align) { sh_flags = 0; sh_offset = offset }

abbrev text : Phdr
text = record {
  p_type = 1;
  p_flags = 4;
  p_offset = 0;
  p_vaddr = 0x1000;
  p_paddr = 0x1000;
  p_filesz = 0x1000;
  p_memsz = 0x1000;
  p_align = 0x1000;
}

abbrev image : List Phdr → List Shdr → Image
image phdr shdr = record {
  elf64 = true;
  e_phoff = 64;
  e_phentsize = 56;
  e_shoff = 0x2200;
  phdr = phdr;
  shdr = shdr;
  new = some 1 ∷ some 2 ∷ [];
  basemove_adjust = 0;
  basemove_end = 0;
  moveend = 0;
  move2 = false;
}

abbrev with_gap : Image
with_gap =
    image (text ∷ [])
      (section 0 0 0 ∷ section 0x1080 0x80 8 ∷ section 0x1200 0x100 8 ∷ plain 0x2000 1 ∷ [])

abbrev new_section : Shdr
new_section = section 0 0x40 8

abbrev number_of : Option (ℕ × Image) → ℕ
number_of none = 0
number_of (some (n, im)) = n

abbrev addresses : Option (ℕ × Image) → List ℕ
addresses none = []
addresses (some (n, im)) = map (λ (s : Shdr). s.sh_addr) im.shdr

addresses-in_gap :
    addresses (in_gap new_section with_gap 0 with_gap.phdr) ≡ 0 ∷ 0x1080 ∷ 0x1100 ∷ 0x1200 ∷ 0 ∷ []
unfolding in_gap try_segment place_if_room place_in_segment scan round_up in_segment has_room
    headers_size behind_headers insert_readonly_section
addresses-in_gap = refl

in_gap-PlacedIn_example :
    PlacedIn new_section 3 with_gap 0 with_gap.phdr (in_gap new_section with_gap 0 with_gap.phdr)
unfolding headers_size behind_headers in_segment
in_gap-PlacedIn_example =
    in_gap-PlacedIn new_section 3 with_gap 0 with_gap.phdr (omega arith) refl
      ((omega arith, omega arith, omega arith, omega arith, in_order), tt)
  where
    in_order : InOrder text 3 0x40 0x1078 (drop 1 with_gap.shdr)
    in_order = (
      (λ e. ((omega arith, omega arith), (λ e'. omega arith, (λ e'. absurd (cc e'), tt)))),
      ((λ e. ((omega arith, omega arith), (λ e'. absurd (cc e'), tt))), ((λ e. absurd (cc e)), tt)),
    )

abbrev with_tail : Image
with_tail =
    image (text ∷ []) (section 0 0 0 ∷ section 0x1080 0x80 8 ∷ plain 0x2000 1 ∷ plain 0x2100 8 ∷ [])

adjust_nonalloc-MovesBehind_example :
    (by : ℕ) × (0x1c ≤ by)
    × (by ≤ 0x20)
    × MovesBehind 0 0 by with_tail (adjust_nonalloc with_tail 0 0 0x1c)
adjust_nonalloc-MovesBehind_example =
    adjust_nonalloc-MovesBehind 0 0 3 4 with_tail 0x1c (omega arith) (omega arith) (omega arith)
      (omega arith)
      (
        (λ e. (3, omega arith, refl)),
        ((λ e. (0, omega arith, refl)), ((λ e. (3, omega arith, refl)), tt)),
      )

abbrev unaligned : Image
unaligned =
    image (text ∷ []) (section 0 0 0 ∷ section 0x1080 0x80 8 ∷ plain 0x2000 1 ∷ plain 0x2100 0 ∷ [])

adjust_nonalloc-unaligned_example : adjust_nonalloc unaligned 0 0 0x1c ≡ unaligned
adjust_nonalloc-unaligned_example =
    adjust_nonalloc-unaligned 0 0 unaligned 0x1c (omega arith) (omega arith)
      (omega arith, (omega arith, (omega arith, tt))) (inr (inr (inl (refl, refl))))

new_load-IsLoadableBehind_example :
    IsLoadableBehind text (new_load new_section text)
    × ((new_load new_section text).p_offset % 8 ≡ 0)
    × ((new_load new_section text).p_memsz ≡ 0x40)
new_load-IsLoadableBehind_example =
    new_load-IsLoadableBehind new_section text 3 12 (omega arith) (omega arith) refl refl
      (omega arith) (omega arith)

abbrev full : Phdr
full = record text { p_offset = 0x1000 }

abbrev next : Phdr
next = record text { p_flags = 6; p_offset = 0x2000; p_vaddr = 0x4000; p_paddr = 0x4000 }

abbrev filled : Image
filled = image (full ∷ next ∷ []) (section 0 0 0 ∷ section 0x1000 0x1000 8 ∷ plain 0x3000 1 ∷ [])

abbrev offsets : Option (ℕ × Image) → List ℕ
offsets none = []
offsets (some (n, im)) = map (λ (s : Shdr). s.sh_offset) im.shdr

-- The room up to the next segment is measured without the offset of the segment itself: the new
-- section is put at the offset at which the next segment starts.
offsets-in_gap :
    offsets (in_gap new_section filled 0 filled.phdr) ≡ 0 ∷ 0x1000 ∷ 0x2000 ∷ 0x3040 ∷ []
unfolding in_gap try_segment place_if_room place_in_segment scan round_up in_segment has_room
    next_offset headers_size behind_headers insert_readonly_section adjust_nonalloc table_adjust
    aligned_adjust move_behind
offsets-in_gap = refl

abbrev unused : Phdr
unused = record text { p_type = 0 }

drop_entry-lost_example : take 1 (drop_entry (text ∷ full ∷ unused ∷ next ∷ []) 2) ≡ next ∷ []
drop_entry-lost_example = drop_entry-lost (text ∷ full ∷ []) (next ∷ []) unused
