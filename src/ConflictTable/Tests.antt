-- ===== src/ConflictTable/Tests.antt =====
-- Runs of the conflicts, and the theorems at concrete inputs.
use prelink_cross.Base.{ℕ, zero, suc, ◌*◌, ◌≡◌, refl, true, false, some, List, [], ◌∷◌, length}
use prelink_cross.Reloc.{Conflict}
use prelink_cross.ConflictTable.{
  chain, Conflicts, no_conflicts, Line, Result, ok, err, differs, find_in, chain_of, push,
  distribute, conflict_hash_init, add_entry, count_up, agrees, record_line, record_lines,
  prelink_conflict,
}
use prelink_cross.ConflictTable.Refines.{
  BothRefine, Refines, Spec, extend, nothing_recorded, spec_line, spec_lines,
  record_lines-BothRefine, prelink_conflict-Refines,
}

abbrev bound_to : ℕ → Conflict
bound_to lib = record {
  lookup = lib;
  conflict = lib;
  lookupval = 16;
  conflictval = 16;
  reloc_class = 8;
  ifunc = true;
}

abbrev line : ℕ → ℕ → Line
line symoff lib = record { symoff = symoff; value = bound_to lib; malloc = true; calloc = true }

-- Lines for the symbols of that many offsets, 24 apart.
abbrev lines_to : ℕ → List Line
lines_to zero = []
lines_to (suc n) = line (24 * n) n ∷ lines_to n

-- The length of the chain at an offset, 1000 for an error.
abbrev chain_length : ℕ → Result Conflicts → ℕ
chain_length symoff (ok t) = length (chain_of t.hash symoff)
chain_length symoff (err e) = 1000

-- Fifteen conflicts are in one chain, and the sixteenth spreads them.
fifteen_lines : chain_length 48 (record_lines no_conflicts (lines_to 15)) ≡ 15
unfolding record_lines record_line find_in chain_of add_entry count_up
fifteen_lines = refl

twenty_lines : chain_length 48 (record_lines no_conflicts (lines_to 20)) ≡ 1
unfolding record_lines record_line find_in chain_of add_entry count_up conflict_hash_init distribute
    push
twenty_lines = refl

contradiction : record_lines no_conflicts (line 48 3 ∷ line 24 1 ∷ line 48 2 ∷ []) ≡ err differs
unfolding record_lines record_line find_in chain_of add_entry count_up agrees
contradiction = refl

record_lines-BothRefine_example :
    BothRefine (record_lines no_conflicts (lines_to 20)) (spec_lines nothing_recorded (lines_to 20))
record_lines-BothRefine_example = record_lines-BothRefine (lines_to 20)

abbrev two_lines : List Line
two_lines = line 24 1 ∷ line 48 2 ∷ []

abbrev two_recorded : Conflicts
two_recorded = record {
  hash = chain (
      record { symoff = 48; used = false; value = bound_to 2 }
      ∷ record { symoff = 24; used = false; value = bound_to 1 }
      ∷ []);
  count = 2;
}

abbrev two_specified : Spec
two_specified = extend (extend nothing_recorded 24 (bound_to 1)) 48 (bound_to 2)

two_Refines : Refines two_recorded two_specified
unfolding record_lines record_line find_in chain_of add_entry count_up spec_lines spec_line
two_Refines = record_lines-BothRefine two_lines

prelink_conflict-Refines_example :
    (prelink_conflict two_recorded (0, 24) 2 8).0 ≡ some (bound_to 2)
    × Refines (prelink_conflict two_recorded (0, 24) 2 8).1 two_specified
prelink_conflict-Refines_example =
    prelink_conflict-Refines two_recorded two_specified 0 24 2 8 two_Refines
