-- ===== src/Layout/Insertion.antt =====
-- The insertion of a placed library into the list.
use prelink_cross.Base.{
  ◌≡◌, refl, ◌∙◌, inl, inr, List, [], ◌∷◌, ◌++◌, ltb, arith, All, All-map, subst, Bool-cases,
}
use prelink_cross.Layout.{Entry, unwind, rewind, walk_start, walk_back, insert_at}
use prelink_cross.Layout.Search.{Below}
use prelink_cross.Layout.Pairs.{
  Pairs, All-append, Pairs-before, append_assoc, unwind-Prefix, unwind-rewind,
}

-- `l'` is `l` with `x` put behind entries that do not start above it, and before entries that do not
-- start below it.
pub record Inserted (x : Entry) (l l' : List Entry) : Type 0 where
  pub front : List Entry
  pub back : List Entry
  pub old : l ≡ front ++ back
  pub new : l' ≡ front ++ x ∷ back
  pub low : All (λ e. Below e x) front
  pub high : All (Below x) back

module _ (x : Entry) where
  behind_it :
      (before : List Entry) (e : Entry) (after : List Entry)
      → Below e x
      → All (Below x) after
      → Pairs Below (unwind before (e ∷ after))
      → Inserted x (unwind before (e ∷ after)) (unwind before (e ∷ x ∷ after))
  behind_it before e after le high sorted =
      let (a, split) = unwind-Prefix before in
      let low = Pairs-before Below a after e (subst (Pairs Below) (split (e ∷ after)) sorted) in
      record {
        front = a ++ e ∷ [];
        back = after;
        old = split (e ∷ after) ∙ append_assoc a e after;
        new = split (e ∷ x ∷ after) ∙ append_assoc a e (x ∷ after);
        low =
            All-append (λ b. Below b x) a (e ∷ [])
              (All-map (λ b. Below b e) (λ b. Below b x) (λ b h. omega arith) a low) (le, tt);
        high = high;
      }

  walk_back-Inserted :
      (before after : List Entry)
      → All (Below x) after
      → Pairs Below (unwind before after)
      → Inserted x (unwind before after) (walk_back x before after)
  unfolding walk_back unwind
  walk_back-Inserted [] after high sorted = record {
    front = [];
    back = after;
    old = refl;
    new = refl;
    low = tt;
    high = high;
  }
  walk_back-Inserted (e ∷ before) after high sorted = elim (Bool-cases (ltb x.base e.base)) [
    | inl c ↦ rw c (walk_back-Inserted before (e ∷ after) (ground arith, high) sorted)
    | inr c ↦ rw c (behind_it before e after (ground arith) high sorted)
  ]

  pub insert_at-Inserted :
      (before after l : List Entry)
      → unwind before after ≡ l
      → Pairs Below l
      → All (Below x) after
      → Inserted x l (insert_at x (record { before = before; after = after }))
  unfolding insert_at walk_start unwind
  insert_at-Inserted before [] l e sorted high =
      rw (← e) (walk_back-Inserted before [] tt (rw e sorted))
  insert_at-Inserted (p ∷ before) (y ∷ after) l e sorted high =
      rw (← e) (walk_back-Inserted (p ∷ before) (y ∷ after) high (rw e sorted))
  insert_at-Inserted [] (y ∷ after) l e sorted high =
      let same : unwind (rewind after (y ∷ [])) [] ≡ l = unwind-rewind after (y ∷ []) ∙ e in
      rw (← same) (walk_back-Inserted (rewind after (y ∷ [])) [] tt (rw same sorted))
