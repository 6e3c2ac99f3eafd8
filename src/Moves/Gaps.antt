-- ===== src/Moves/Gaps.antt =====
-- Reading tables with a gap opened or closed, and mapped tables.
use prelink_cross.Base.{
  ℕ, zero, suc, ◌+◌, ◌≤◌, ◌<◌, ◌≡◌, refl, ap, sym, ◌∙◌, Option, none, some, List, [], ◌∷◌, map,
  length, arith, get_elem?,
}
use prelink_cross.Moves.{count_from, open_gap, close_gap, map_tail}

pub get_elem?-count_from : (k n i : ℕ) → i < n → get_elem? (count_from k n) i ≡ some (some (k + i))
unfolding count_from
get_elem?-count_from k zero i h = absurd (omega arith)
get_elem?-count_from k (suc n) zero h = ap (λ t. some (some t)) (omega arith)
get_elem?-count_from k (suc n) (suc i) h =
    get_elem?-count_from (suc k) n i (omega arith) ∙ ap (λ t. some (some t)) (omega arith)

pub count_from-some :
    (k n i : ℕ) (o : Option ℕ) → get_elem? (count_from k n) i ≡ some o → o ≡ some (k + i)
unfolding count_from
count_from-some k zero i o e = absurd (cc e)
count_from-some k (suc n) zero o e = let q : o ≡ some k = cc e in q ∙ ap some (omega arith)
count_from-some k (suc n) (suc i) o e = count_from-some (suc k) n i o e ∙ ap some (omega arith)

pub get_elem?-open_below :
    (l : List (Option ℕ)) (sec j : ℕ)
    → sec ≤ length l
    → j < sec
    → get_elem? (open_gap l sec) j ≡ get_elem? l j
unfolding open_gap
get_elem?-open_below l zero j h g = absurd (omega arith)
get_elem?-open_below [] (suc sec) j h g = absurd (omega arith)
get_elem?-open_below (x ∷ l) (suc sec) zero h g = refl
get_elem?-open_below (x ∷ l) (suc sec) (suc j) h g =
    get_elem?-open_below l sec j (omega arith) (omega arith)

pub get_elem?-open_at :
    (l : List (Option ℕ)) (sec : ℕ) → sec ≤ length l → get_elem? (open_gap l sec) sec ≡ some none
unfolding open_gap
get_elem?-open_at l zero h = refl
get_elem?-open_at [] (suc sec) h = absurd (omega arith)
get_elem?-open_at (x ∷ l) (suc sec) h = get_elem?-open_at l sec (omega arith)

pub get_elem?-open_above :
    (l : List (Option ℕ)) (sec j : ℕ)
    → sec ≤ length l
    → sec ≤ j
    → get_elem? (open_gap l sec) (suc j) ≡ get_elem? l j
unfolding open_gap
get_elem?-open_above l zero j h g = refl
get_elem?-open_above [] (suc sec) j h g = absurd (omega arith)
get_elem?-open_above (x ∷ l) (suc sec) zero h g = absurd (omega arith)
get_elem?-open_above (x ∷ l) (suc sec) (suc j) h g =
    get_elem?-open_above l sec j (omega arith) (omega arith)

pub get_elem?-close_below :
    (l : List (Option ℕ)) (sec j : ℕ) → j < sec → get_elem? (close_gap l sec) j ≡ get_elem? l j
unfolding close_gap
get_elem?-close_below [] sec j g = refl
get_elem?-close_below (x ∷ l) zero j g = absurd (omega arith)
get_elem?-close_below (x ∷ l) (suc sec) zero g = refl
get_elem?-close_below (x ∷ l) (suc sec) (suc j) g = get_elem?-close_below l sec j (omega arith)

pub get_elem?-close_above :
    (l : List (Option ℕ)) (sec j : ℕ)
    → sec ≤ j
    → get_elem? (close_gap l sec) j ≡ get_elem? l (suc j)
unfolding close_gap
get_elem?-close_above [] sec j g = refl
get_elem?-close_above (x ∷ l) zero j g = refl
get_elem?-close_above (x ∷ l) (suc sec) zero g = absurd (omega arith)
get_elem?-close_above (x ∷ l) (suc sec) (suc j) g = get_elem?-close_above l sec j (omega arith)

pub get_elem?-map :
    (f : Option ℕ → Option ℕ) (l : List (Option ℕ)) (i : ℕ) (o : Option ℕ)
    → get_elem? l i ≡ some o
    → get_elem? (map f l) i ≡ some (f o)
get_elem?-map f [] i o e = absurd (cc e)
get_elem?-map f (x ∷ l) zero o e = let q : x ≡ o = cc e in ap (λ t. some (f t)) q
get_elem?-map f (x ∷ l) (suc i) o e = get_elem?-map f l i o e

pub map-get_elem? :
    (f : Option ℕ → Option ℕ) (l : List (Option ℕ)) (i : ℕ) (o : Option ℕ)
    → get_elem? (map f l) i ≡ some o
    → (p : Option ℕ) × (get_elem? l i ≡ some p) × (o ≡ f p)
map-get_elem? f [] i o e = absurd (cc e)
map-get_elem? f (x ∷ l) zero o e = (x, refl, cc e)
map-get_elem? f (x ∷ l) (suc i) o e = map-get_elem? f l i o e

-- Where the function leaves the entry 0 as it is, the loop from 1 on is the map.
pub map_tail-map :
    (f : Option ℕ → Option ℕ) (l : List (Option ℕ))
    → get_elem? l 0 ≡ some (some 0)
    → f (some 0) ≡ some 0
    → map_tail f l ≡ map f l
unfolding map_tail
map_tail-map f [] e h = refl
map_tail-map f (x ∷ l) e h =
    let q : x ≡ some 0 = cc e in ap (λ t. t ∷ map f l) (q ∙ sym h ∙ ap f (sym q))
