-- ===== src/Space/Unplaced.antt =====
-- Section headers without the offsets of their sections, which adjust_nonalloc keeps.
use prelink_cross.Base.{ℕ, suc, ◌≡◌, refl, ap, List, [], ◌∷◌, ◌++◌, map, inl, inr, Bool-cases}
use prelink_cross.Dso.{Shdr}
use prelink_cross.Space.{Image, is_behind, move_behind, from_1, adjust_nonalloc}

-- A section header but for where the section is in the file.
abbrev pub unplaced : Shdr → Shdr
unplaced s = record s { sh_offset = 0 }

unplaced-move_behind :
    (first start adjust i : ℕ) (l : List Shdr)
    → map unplaced (move_behind first start adjust i l) ≡ map unplaced l
unfolding move_behind
unplaced-move_behind first start adjust i [] = refl
unplaced-move_behind first start adjust i (s ∷ l) = elim (Bool-cases (is_behind first start i s)) [
  | inl c ↦ rw c (ap (λ t. unplaced s ∷ t) (unplaced-move_behind first start adjust (suc i) l))
  | inr c ↦ rw c (ap (λ t. unplaced s ∷ t) (unplaced-move_behind first start adjust (suc i) l))
]

unplaced-from_1 :
    (f : List Shdr → List Shdr) (l : List Shdr)
    → ((m : List Shdr) → map unplaced (f m) ≡ map unplaced m)
    → map unplaced (from_1 f l) ≡ map unplaced l
unplaced-from_1 f [] h = refl
unplaced-from_1 f (s ∷ l) h = ap (λ t. unplaced s ∷ t) (h l)

pub unplaced-adjust_nonalloc :
    (im : Image) (first start adjust : ℕ)
    → map unplaced (adjust_nonalloc im first start adjust).shdr ≡ map unplaced im.shdr
unfolding adjust_nonalloc
unplaced-adjust_nonalloc im first start adjust =
    unplaced-from_1 _ im.shdr (λ m. unplaced-move_behind first start _ 1 m)

pub map-insert :
    {A B : Type 0} (f : A → B) (x y : A) (l m : List A)
    → f x ≡ f y
    → map f (l ++ x ∷ m) ≡ map f (l ++ y ∷ m)
map-insert f x y [] m e = ap (λ t. t ∷ map f m) e
map-insert f x y (a ∷ l) m e = ap (λ t. f a ∷ t) (map-insert f x y l m e)
