-- ===== src/Space/Find.antt =====
-- find_readonly_space of src/space.c: the ways in their order, up to where sections have to be moved
-- away from the table of the program headers.
use prelink_cross.Base.{
  ℕ, ◌+◌, ◌*◌, Bool, false, ◌||◌, Option, none, some, List, [], ◌∷◌, length, drop, ltb, add64,
  if◌then◌else◌,
}
use prelink_cross.Dso.{Shdr}
use prelink_cross.Space.{Image, at_current}
use prelink_cross.Space.Gap.{in_gap}
use prelink_cross.Space.Extend.{extend_last}
use prelink_cross.Space.LowerBase.{lower_base}
use prelink_cross.Space.NewSegment.{first_null, drop_entry, new_segment}

-- What the search comes to: a section number and the new headers, the headers for which sections
-- have to be moved first, or an `assert` that fails.
pub data SpaceFound : Type 0 where
  placed : ℕ → Image → SpaceFound
  needs_room : Image → SpaceFound
  aborted : SpaceFound

abbrev placed_or : Option (ℕ × Image) → SpaceFound → SpaceFound
placed_or none other = other
placed_or (some (n, im)) other = placed n im

-- Whether some section starts below the end of a table with one more entry.
unfoldable pub is_crowded : ℕ → List Shdr → Bool
is_crowded end [] = false
is_crowded end (s ∷ l) = ltb s.sh_offset end || is_crowded end l

-- The fifth way.
unfoldable pub last_way : Shdr → Image → SpaceFound
last_way add im =
    let end = add64 im.e_phoff ((length im.phdr + 1) * im.e_phentsize) in
    elim (first_null im.phdr 0) [
      | some j ↦ placed_or (new_segment add (record im { phdr = drop_entry im.phdr j })) aborted
      | none ↦
          if is_crowded end (drop 1 im.shdr)
          then needs_room im
          else placed_or (new_segment add im) aborted
    ]

unfoldable pub find_readonly_space : ℕ → Shdr → Shdr → Image → SpaceFound
find_readonly_space page_size spare add im = placed_or (at_current add im) (
    placed_or (in_gap add im 0 im.phdr) (
      placed_or (extend_last page_size spare add im) (elim (lower_base page_size spare add im) [
        | none ↦ aborted
        | some (some n, im') ↦ placed n im'
        | some (none, im') ↦ last_way add im'
      ])))
