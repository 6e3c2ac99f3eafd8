-- ===== src/Moves.antt =====
-- src/dso.c, `struct section_move` and its three functions: which section of the file that is being
-- rewritten each old section becomes, and the other way round.
pub mod Gaps
pub mod Inverse
mod Tests
use prelink_cross.Base.{
  ℕ, zero, suc, ◌+◌, ◌-◌, Bool, ◌&&◌, Option, none, some, List, [], ◌∷◌, map, length, leb, ltb,
  ◌==◌, if◌then◌else◌,
}

-- -1 is `none`. `old_shnum` and `new_shnum` are the lengths.
pub record SectionMove : Type 0 where
  pub old_to_new : List (Option ℕ)
  pub new_to_old : List (Option ℕ)

unfoldable pub count_from : ℕ → ℕ → List (Option ℕ)
count_from i zero = []
count_from i (suc n) = some i ∷ count_from (suc i) n

-- The argument is `e_shnum`; an allocation that fails is left out.
unfoldable pub init_section_move : ℕ → SectionMove
init_section_move shnum = record {
  old_to_new = count_from 0 shnum;
  new_to_old = count_from 0 shnum;
}

-- The `memmove`s, with the store of -1 into the gap.
unfoldable pub open_gap : List (Option ℕ) → ℕ → List (Option ℕ)
open_gap l zero = none ∷ l
open_gap [] (suc sec) = []
open_gap (x ∷ l) (suc sec) = x ∷ open_gap l sec

unfoldable pub close_gap : List (Option ℕ) → ℕ → List (Option ℕ)
close_gap [] sec = []
close_gap (x ∷ l) zero = l
close_gap (x ∷ l) (suc sec) = x ∷ close_gap l sec

unfoldable pub raise : ℕ → Option ℕ → Option ℕ
raise sec none = none
raise sec (some j) = some (if leb sec j then suc j else j)

unfoldable pub lower : ℕ → Option ℕ → Option ℕ
lower sec none = none
lower sec (some j) = if j == sec then none else some (if ltb sec j then j - 1 else j)

-- The loops start at 1.
unfoldable pub map_tail : (Option ℕ → Option ℕ) → List (Option ℕ) → List (Option ℕ)
map_tail f [] = []
map_tail f (x ∷ l) = x ∷ map f l

-- A failing `assert` is `none`.
unfoldable pub add_section : SectionMove → ℕ → Option SectionMove
add_section m sec =
    if ltb (length m.new_to_old) (length m.old_to_new + 20) && leb sec (length m.new_to_old)
    then some (record {
      old_to_new = map_tail (raise sec) m.old_to_new;
      new_to_old = open_gap m.new_to_old sec;
    })
    else none

unfoldable pub remove_section : SectionMove → ℕ → Option SectionMove
remove_section m sec =
    if ltb sec (length m.new_to_old)
    then some (record {
      old_to_new = map_tail (lower sec) m.old_to_new;
      new_to_old = close_gap m.new_to_old sec;
    })
    else none
