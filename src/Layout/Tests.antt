-- ===== src/Layout/Tests.antt =====
-- Two libraries that are placed beside one that has its place, and the comparisons of some.
use prelink_cross.Base.{ℕ, ◌≡◌, refl, inl, true, false, none, some, List, [], ◌∷◌, arith, add64}
use prelink_cross.Layout.{
  Entry, Region, find_slot, place_libs, place, insert_at, walk_start, walk_back, unwind, rewind,
  move_to, marks, mark, depends_on, move_up, move_down, move_home, region_length,
}
use prelink_cross.Layout.Lowest.{IsLowest, find_slot-IsLowest}
use prelink_cross.Layout.Placed.{IsDone, place_libs-IsDone}
use prelink_cross.Layout.Shift.{move_home-move_up}
use prelink_cross.Layout.Compare.{Ranked, minus, refs_rnd_cmp, by, slack}

abbrev region : Region
region = record {
  mmap_start = 0x1000;
  mmap_base = 0x1000;
  mmap_end = 0x9000;
  mmap_fin = 0x9000;
  done_above = 1;
}

abbrev entry_at : ℕ → ℕ → ℕ → ℕ → Entry
entry_at id base layend done = record {
  id = id;
  base = base;
  end = layend;
  layend = layend;
  done = done;
}

-- 0x1000 bytes from 0 on, and 0x2000.
abbrev small_one : Entry
small_one = entry_at 1 0 0x1000 0

abbrev large_one : Entry
large_one = entry_at 2 0 0x2000 0

abbrev placed_one : Entry
placed_one = entry_at 0 0x2000 0x3000 1

abbrev placed_all : List Entry
placed_all =
    entry_at 1 0x1000 0x2000 1 ∷ entry_at 0 0x2000 0x3000 1 ∷ entry_at 2 0x3000 0x5000 1 ∷ []

place_libs-IsDone_example :
    IsDone region 0x9000 false []
      (omega arith)
      (omega arith)
      (placed_one ∷ [])
      (large_one ∷ small_one ∷ [])
      placed_all
unfolding place_libs place find_slot insert_at walk_start walk_back unwind rewind move_to marks
place_libs-IsDone_example =
    place_libs-IsDone region 0x9000 false [] (omega arith) (omega arith) [] (λ k. none)
      (placed_one ∷ []) (large_one ∷ small_one ∷ []) placed_all (omega arith)
      (record { sorted = omega arith; apart = (tt, tt); bounded = omega arith }) refl

-- With `conserve_memory`, and one binary that depends on the first two libraries, the third may
-- overlap with both.
place_conserving :
    place_libs region true []
      ((0 ∷ 1 ∷ []) ∷ [])
      (λ k. none)
      (placed_one ∷ [])
      (large_one ∷ small_one ∷ [])
    ≡ some
        (entry_at 2 0x1000 0x3000 1 ∷ entry_at 1 0x1000 0x2000 1 ∷ entry_at 0 0x2000 0x3000 1 ∷ [])
unfolding place_libs place find_slot insert_at walk_start walk_back unwind rewind move_to marks mark
    depends_on
place_conserving = refl

find_slot-IsLowest_example :
    IsLowest
      (λ e. true)
      0x2000
      0x9000
      0x1000
      (placed_one ∷ [])
      (find_slot (λ e. true) 0x2000 0x9000 0x1000 [] (placed_one ∷ []))
find_slot-IsLowest_example =
    find_slot-IsLowest (λ e. true) 0x2000 0x9000 0x1000 [] (placed_one ∷ []) (tt, tt) (omega arith)
      (omega arith)

move_home-move_up_example :
    (move_down region (move_up region placed_one) ≡ placed_one)
    × (move_home region (move_up region placed_one)
        ≡ record placed_one { layend = add64 0x3000 (region_length region) })
move_home-move_up_example =
    move_home-move_up region placed_one (inl refl) (omega arith) (omega arith) (omega arith)

-- What the last loop makes of an entry at 0x2000 to 0x3000 that was moved up: it ends at 0xB000.
home_too_long : (move_home region (move_up region placed_one)).layend ≡ 0xB000
unfolding move_home move_up
home_too_long = refl

abbrev ranked : ℕ → ℕ → Ranked
ranked refs tmp = record {
  soname = b'l' ∷ [];
  filename = b'/' ∷ b'l' ∷ [];
  depends_count = 1;
  refs = refs;
  tmp = tmp;
  base = 0;
  layend = 0x1000;
  done = 0;
}

-- The first before the second, the second before the third, the third before the first.
rnd_first : refs_rnd_cmp (ranked 10 1) (ranked 11 2) ≡ minus
unfolding refs_rnd_cmp by slack
rnd_first = refl

rnd_second : refs_rnd_cmp (ranked 11 2) (ranked 12 3) ≡ minus
unfolding refs_rnd_cmp by slack
rnd_second = refl

rnd_third : refs_rnd_cmp (ranked 12 3) (ranked 10 1) ≡ minus
unfolding refs_rnd_cmp by slack
rnd_third = refl
