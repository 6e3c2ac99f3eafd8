-- ===== src/Layout.antt =====
-- src/layout.c: the order in which libraries are given their addresses, and the slots they get.
-- The doubly linked list of the placed libraries is a list of entries, and a pointer into it the
-- entries before it, the nearest first, with those from it on.
pub mod Pairs
pub mod Search
pub mod Lowest
pub mod Insertion
pub mod Apart
pub mod Placed
pub mod Compare
pub mod Shift
mod Tests
use prelink_cross.Base.{
  ℕ, ◌+◌, ◌-◌, ◌^◌, Bool, true, false, ◌&&◌, ◌||◌, not, Option, none, some, List, [], ◌∷◌, bit_and,
  bit_or, ltb, leb, ◌==◌, if◌then◌else◌, add64, sub64,
}

-- `struct prelink_entry`, the fields that the placement reads and writes. `id` stands for the
-- address of the entry, which is also its index in `l.libs`.
pub record Entry : Type 0 where
  pub id : ℕ
  pub base : ℕ
  pub end : ℕ
  pub layend : ℕ
  pub done : ℕ

-- The room between libraries: `layend` is `end` and two pages, rounded up.
unfoldable pub room : ℕ → Entry → Entry
room max_page_size e =
    let top = sub64 (add64 (add64 e.end 8192) max_page_size) 1 in
    record e { layend = bit_and top (2 ^ 64 - 1 - (max_page_size - 1)) }

abbrev pub size_of : Entry → ℕ
size_of e = sub64 e.layend e.base

-- A place in the list: the entries before it, the nearest first, and those from it on.
pub record Cursor : Type 0 where
  pub before : List Entry
  pub after : List Entry

unfoldable pub unwind : List Entry → List Entry → List Entry
unwind [] after = after
unwind (e ∷ before) after = unwind before (e ∷ after)

-- Where the walk for the insertion starts, for `e` the first entry of `after`: behind the last entry
-- when `e` is NULL, at `e->prev` else, which is the last entry for the first one.
unfoldable pub rewind : List Entry → List Entry → List Entry
rewind [] before = before
rewind (e ∷ after) before = rewind after (e ∷ before)

unfoldable pub walk_start : List Entry → List Entry → Cursor
walk_start before [] = record { before = before; after = [] }
walk_start [] (e ∷ after) = record { before = rewind after (e ∷ []); after = [] }
walk_start (p ∷ before) (e ∷ after) = record { before = p ∷ before; after = e ∷ after }

-- A slot: an address and the pointer that the search stopped at.
pub record Slot : Type 0 where
  pub addr : ℕ
  pub at : Cursor

-- `e->u.tmp == m` is `seen e`. `none` is the jump to `not_found`.
module _ (seen : Entry → Bool) (size mmap_fin : ℕ) where
  unfoldable pub find_slot : ℕ → List Entry → List Entry → Option Slot
  find_slot base before [] =
      if ltb mmap_fin (add64 base size)
      then none
      else some (record { addr = base; at = record { before = before; after = [] } })
  find_slot base before (e ∷ after) =
      let past = find_slot e.layend (e ∷ before) after in
      let on = find_slot base (e ∷ before) after in
      if not (seen e)
      then on
      else if leb (add64 base size) e.base
      then some (record { addr = base; at = record { before = before; after = e ∷ after } })
      else if ltb base e.layend
      then past
      else on

-- The walk back to an entry that does not start above the new one, and the insertion behind it.
unfoldable pub walk_back : Entry → List Entry → List Entry → List Entry
walk_back x [] after = x ∷ after
walk_back x (e ∷ before) after =
    if ltb x.base e.base then walk_back x before (e ∷ after) else unwind (e ∷ before) (x ∷ after)

-- `found:` moves the library to its slot.
unfoldable pub move_to : ℕ → ℕ → Entry → ℕ → Entry
move_to done mmap_end x addr = record x {
  base = addr;
  end = add64 x.end (sub64 addr x.base);
  layend = add64 addr (size_of x);
  done = if leb mmap_end addr then done else 1;
}

-- The four bounds of the region, and the `done` of what is placed above `mmap_end`.
pub record Region : Type 0 where
  pub mmap_start : ℕ
  pub mmap_base : ℕ
  pub mmap_end : ℕ
  pub mmap_fin : ℕ
  pub done_above : ℕ

unfoldable pub insert_at : Entry → Cursor → List Entry
insert_at x c = let w = walk_start c.before c.after in walk_back x w.before w.after

unfoldable pub place : Region → (Entry → Bool) → List Entry → Entry → Option (List Entry)
place r seen l x = elim (find_slot seen (size_of x) r.mmap_fin r.mmap_start [] l) [
  | none ↦ none
  | some s ↦ some (insert_at (move_to r.done_above r.mmap_end x s.addr) s.at)
]

-- The marks that `conserve_memory` sets: `u.tmp` of each entry, `none` for -1.
unfoldable pub depends_on : List ℕ → ℕ → Bool
depends_on [] i = false
depends_on (k ∷ l) i = k == i || depends_on l i

unfoldable pub mark : (ℕ → Option ℕ) → ℕ → List (List ℕ) → ℕ → Option ℕ
mark tmp i [] k = tmp k
mark tmp i (deps ∷ binlibs) k =
    mark (λ j. if depends_on deps i && depends_on deps j then some i else tmp j) i binlibs k

abbrev pub is_marked : Option ℕ → ℕ → Bool
is_marked none i = false
is_marked (some j) i = j == i

-- Which entries the search for a slot for the library `i` looks at, and the marks it leaves.
-- `fakes` are the entries of `fake`.
unfoldable pub marks : Bool → List ℕ → List (List ℕ) → (ℕ → Option ℕ) → ℕ → ℕ → Option ℕ
marks true fakes binlibs tmp i k = if depends_on fakes k then some i else mark tmp i binlibs k
marks false fakes binlibs tmp i k = tmp k

abbrev pub seen_by : Bool → (ℕ → Option ℕ) → ℕ → Entry → Bool
seen_by conserve_memory tmp i e = if conserve_memory then is_marked (tmp e.id) i else true

-- The loop over `l.libs`: the libraries that are not done are placed in turn. `none` is the error
-- of a library for which there is no slot.
module _ (r : Region) (conserve_memory : Bool) (fakes : List ℕ) (binlibs : List (List ℕ)) where
  unfoldable pub place_libs : (ℕ → Option ℕ) → List Entry → List Entry → Option (List Entry)
  place_libs tmp l [] = some l
  place_libs tmp l (x ∷ libs) =
      let tmp' = marks conserve_memory fakes binlibs tmp x.id in
      let placed = place r (seen_by conserve_memory tmp' x.id) l x in
      let skip = place_libs tmp l libs in
      if x.done == 0 then elim placed [ none ↦ none | some l' ↦ place_libs tmp' l' libs ] else skip

-- The three loops that move entries by the length of the region: up, those that start below
-- `mmap_start` (with the start that they leave), down again where `mmap_start` reached `mmap_end`,
-- and down at the end, where `layend` is decreased by `mmap_base - mmap_base`.
abbrev pub region_length : Region → ℕ
region_length r = sub64 r.mmap_end r.mmap_base

unfoldable pub move_up : Region → Entry → Entry
move_up r e = record e {
  base = add64 e.base (region_length r);
  end = add64 e.end (region_length r);
  layend = add64 e.layend (region_length r);
  done = bit_or e.done 0x80;
}

unfoldable pub move_down : Region → Entry → Entry
move_down r e = if bit_and e.done 0x80 == 0 then e else record e {
  base = sub64 e.base (region_length r);
  end = sub64 e.end (region_length r);
  layend = sub64 e.layend (region_length r);
  done = bit_and e.done (2 ^ 32 - 1 - 0x80);
}

unfoldable pub move_home : Region → Entry → Entry
move_home r e = if bit_and e.done 0x80 == 0 then e else record e {
  base = sub64 e.base (region_length r);
  end = sub64 e.end (region_length r);
  layend = sub64 e.layend (sub64 r.mmap_base r.mmap_base);
  done = bit_and e.done (2 ^ 32 - 1 - 0x80);
}
