-- ===== src/Layout/Compare.antt =====
-- The comparisons that layout_libs sorts by.
pub mod Order
use prelink_cross.Base.{
  ℕ, ◌-◌, Bool, true, false, ◌&&◌, not, List, [], ◌∷◌, ltb, leb, ◌==◌, if◌then◌else◌, sub64,
}

-- The fields of `struct prelink_entry` that are compared; `depends_count` is `ndepends`.
pub record Ranked : Type 0 where
  pub soname : List ℕ
  pub filename : List ℕ
  pub depends_count : ℕ
  pub refs : ℕ
  pub tmp : ℕ
  pub base : ℕ
  pub layend : ℕ
  pub done : ℕ

-- The sign of a result.
pub data Sign : Type 0 where
  minus same plus : Sign

unfoldable pub flip : Sign → Sign
flip minus = plus
flip same = same
flip plus = minus

-- `if (a < b) return -1; if (a > b) return 1;`
unfoldable pub by : ℕ → ℕ → Sign → Sign
by a b rest = if ltb a b then minus else if ltb b a then plus else rest

unfoldable pub or_else : Sign → Sign → Sign
or_else minus rest = minus
or_else same rest = rest
or_else plus rest = plus

-- `strcmp`, on bytes.
unfoldable pub strcmp : List ℕ → List ℕ → Sign
strcmp [] [] = same
strcmp [] (y ∷ t) = minus
strcmp (x ∷ s) [] = plus
strcmp (x ∷ s) (y ∷ t) = by x y (strcmp s t)

abbrev pub extent : Ranked → ℕ
extent a = sub64 a.layend a.base

-- Dynamic linkers first.
abbrev pub linker_rank : Ranked → ℕ
linker_rank a = if a.depends_count == 0 then 0 else 1

abbrev pub by_name : Bool → Ranked → Ranked → Sign
by_name sonames a b =
    or_else (if sonames then strcmp a.soname b.soname else same) (strcmp a.filename b.filename)

unfoldable pub refs_cmp : Ranked → Ranked → Sign
refs_cmp a b =
    by (linker_rank a) (linker_rank b)
      (by b.refs a.refs (by (extent b) (extent a) (by_name (not (a.refs == 0)) a b)))

-- How far apart the numbers of references have to be.
unfoldable pub slack : ℕ → ℕ
slack refs = if ltb refs 8 then 1 else if ltb refs 32 then 2 else if ltb refs 128 then 4 else 8

unfoldable pub refs_rnd_cmp : Ranked → Ranked → Sign
refs_rnd_cmp a b =
    let i = slack (if ltb a.refs b.refs then a.refs else b.refs) in
    let rest =
      by a.tmp b.tmp
        (by (extent b) (extent a) (by_name (not (a.refs == 0) && not (b.refs == 0)) a b)) in
    by (linker_rank a) (linker_rank b) (
      if ltb b.refs a.refs && leb i (a.refs - b.refs)
      then minus
      else if ltb a.refs b.refs && leb i (b.refs - a.refs)
      then plus
      else rest)

unfoldable pub addr_cmp : Ranked → Ranked → Sign
addr_cmp a b =
    if a.done == 0
    then if b.done == 0 then same else plus
    else if b.done == 0
    then minus
    else by a.base b.base (by a.layend b.layend same)

unfoldable pub deps_cmp : Ranked → Ranked → Sign
deps_cmp a b = by a.base b.base same
