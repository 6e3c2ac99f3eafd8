-- ===== src/Moves/Tests.antt =====
-- A section that is added to a file of three, and one that is taken out.
use prelink_cross.Base.{◌≡◌, none, some, [], ◌∷◌, arith, refl, get_elem?}
use prelink_cross.Moves.{
  SectionMove, init_section_move, count_from, add_section, remove_section, open_gap, close_gap,
  raise, lower, map_tail,
}
use prelink_cross.Moves.Inverse.{
  IsInverse, init_section_move-IsInverse, add_section-IsInverse, remove_section-IsInverse,
}

abbrev three : SectionMove
three = record {
  old_to_new = some 0 ∷ some 1 ∷ some 2 ∷ [];
  new_to_old = some 0 ∷ some 1 ∷ some 2 ∷ [];
}

starts : init_section_move 3 ≡ three
unfolding init_section_move count_from
starts = refl

adds :
    add_section three 2
    ≡ some (record {
      old_to_new = some 0 ∷ some 1 ∷ some 3 ∷ [];
      new_to_old = some 0 ∷ some 1 ∷ none ∷ some 2 ∷ [];
    })
unfolding add_section map_tail raise open_gap
adds = refl

removes :
    remove_section three 1
    ≡ some (record { old_to_new = some 0 ∷ none ∷ some 1 ∷ []; new_to_old = some 0 ∷ some 2 ∷ [] })
unfolding remove_section map_tail lower close_gap
removes = refl

three-IsInverse : IsInverse three
unfolding init_section_move count_from
three-IsInverse = init_section_move-IsInverse 3 (omega arith)

add_section-IsInverse_example :
    (m' : SectionMove) × (add_section three 2 ≡ some m')
    × IsInverse m'
    × (get_elem? m'.new_to_old 2 ≡ some none)
add_section-IsInverse_example =
    add_section-IsInverse three 2 three-IsInverse (omega arith) (omega arith) (omega arith)

remove_section-IsInverse_example :
    (m' : SectionMove) × (remove_section three 1 ≡ some m') × IsInverse m'
remove_section-IsInverse_example =
    remove_section-IsInverse three 1 three-IsInverse (omega arith) (omega arith)
