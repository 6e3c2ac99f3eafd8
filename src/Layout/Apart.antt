-- ===== src/Layout/Apart.antt =====
-- Which libraries may not overlap, and that the search for a slot looks at all of them.
use prelink_cross.Base.{
  ℕ, ◌≤◌, ◌≡◌, refl, ap, ◌∙◌, ◌⊎◌, inl, inr, Bool, true, false, ◌&&◌, ◌||◌, not, Option, some, List,
  [], ◌∷◌, if◌then◌else◌, arith, Bool-cases,
}
use prelink_cross.Layout.{Entry, depends_on, mark, marks, seen_by, is_marked}

-- Whether one binary depends on both.
unfoldable pub shares : List (List ℕ) → ℕ → ℕ → Bool
shares [] i j = false
shares (deps ∷ binlibs) i j = (depends_on deps i && depends_on deps j) || shares binlibs i j

pub shares_comm : (binlibs : List (List ℕ)) (i j : ℕ) → shares binlibs i j ≡ shares binlibs j i
unfolding shares
shares_comm [] i j = refl
shares_comm (deps ∷ binlibs) i j = ground (arith, shares_comm binlibs i j)

mark-shares :
    (binlibs : List (List ℕ)) (tmp : ℕ → Option ℕ) (i j : ℕ)
    → (shares binlibs i j ≡ true) ⊎ (is_marked (tmp j) i ≡ true)
    → is_marked (mark tmp i binlibs j) i ≡ true
unfolding shares mark
mark-shares [] tmp i j (inl h) = absurd (cc h)
mark-shares [] tmp i j (inr h) = h
mark-shares (deps ∷ binlibs) tmp i j h =
    mark-shares binlibs _ i j (either (depends_on deps i && depends_on deps j) h)
  where
    either :
        (both : Bool)
        → ((both || shares binlibs i j) ≡ true) ⊎ (is_marked (tmp j) i ≡ true)
        → (shares binlibs i j ≡ true) ⊎ (is_marked (if both then some i else tmp j) i ≡ true)
    either true k = inr (ground arith)
    either false k = k

-- The two may not overlap: always, or with `conserve_memory` where one binary depends on both.
abbrev pub must_part : Bool → List (List ℕ) → Entry → Entry → Bool
must_part conserve_memory binlibs a b = not conserve_memory || shares binlibs a.id b.id

module _ (conserve_memory : Bool) (binlibs : List (List ℕ)) where
  abbrev pub AreApart : Entry → Entry → Type 0
  AreApart a b =
      (must_part conserve_memory binlibs a b ≡ false) ⊎ (a.layend ≤ b.base) ⊎ (b.layend ≤ a.base)

  pub AreApart-sym : (a b : Entry) → AreApart a b → AreApart b a
  AreApart-sym a b (inl m) =
      inl (ap (λ s. not conserve_memory || s) (shares_comm binlibs b.id a.id) ∙ m)
  AreApart-sym a b (inr (inl q)) = inr (inr q)
  AreApart-sym a b (inr (inr q)) = inr (inl q)

-- The libraries that must not overlap with the one that is placed are all looked at.
pub seen_by-must_part :
    (conserve_memory : Bool) (binlibs : List (List ℕ)) (fakes : List ℕ) (tmp : ℕ → Option ℕ)
    (x e : Entry)
    → must_part conserve_memory binlibs x e ≡ true
    → seen_by conserve_memory (marks conserve_memory fakes binlibs tmp x.id) x.id e ≡ true
unfolding marks
seen_by-must_part false binlibs fakes tmp x e m = refl
seen_by-must_part true binlibs fakes tmp x e m = elim (Bool-cases (depends_on fakes e.id)) [
  | inl c ↦ rw c (ground arith)
  | inr c ↦ rw c (mark-shares binlibs tmp x.id e.id (inl m))
]
