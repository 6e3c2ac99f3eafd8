-- ===== src/Space/LostEntries.antt =====
-- How src/space.c takes an unused entry out of the table of the program headers.
use prelink_cross.Base.{
  ℕ, zero, suc, ◌-◌, ◌≤◌, ◌≡◌, refl, ap, ◌∙◌, List, [], ◌∷◌, ◌++◌, length, length-append, take,
  drop, arith,
}
use prelink_cross.Dso.{Phdr}
use prelink_cross.Space.NewSegment.{drop_entry}

drop-behind : (a b : List Phdr) (n : Phdr) → drop (suc (length a)) (a ++ n ∷ b) ≡ b
drop-behind [] b n = refl
drop-behind (x ∷ a) b n = drop-behind a b n

take-prefix : (b l : List Phdr) (m : ℕ) → length b ≤ m → take (length b) (take m (b ++ l)) ≡ b
take-prefix [] l m h = refl
take-prefix (x ∷ b) l zero h = absurd (omega arith)
take-prefix (x ∷ b) l (suc m) h = ap (λ t. x ∷ t) (take-prefix b l m (omega arith))

-- The `memmove` has the start of the table as its target in place of the unused entry: the new
-- table starts with the entries that were behind the unused one, which overwrite those that the
-- table starts with.
pub drop_entry-lost :
    (a b : List Phdr) (n : Phdr) → take (length b) (drop_entry (a ++ n ∷ b) (length a)) ≡ b
unfolding drop_entry
drop_entry-lost a b n =
    let behind = drop-behind a b n in
    let l = a ++ n ∷ b in
    let room : length b ≤ length l - 1 = omega (arith, length-append a (n ∷ b)) in
    ap (λ t. take (length b) (take (length l - 1) (t ++ drop (length t) l))) behind
    ∙ take-prefix b (drop (length b) l) (length l - 1) room
