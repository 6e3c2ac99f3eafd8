-- ===== src/Layout/Compare/Order.antt =====
-- The order that `refs_cmp` sorts by.
use prelink_cross.Base.{
  ℕ, ◌≡◌, refl, ap, ◌∙◌, Bool, true, false, not, List, [], ◌∷◌, ◌==◌, inl, inr, ◌⊎◌, arith,
}
use prelink_cross.Layout.Compare.{
  Ranked, Sign, minus, same, plus, flip, by, or_else, strcmp, extent, linker_rank, by_name,
  refs_cmp,
}

by-flip : (a b : ℕ) (s t : Sign) → (a ≡ b → t ≡ flip s) → by b a t ≡ flip (by a b s)
unfolding by flip
by-flip a b s t h = ground (arith, h)

strcmp-flip : (s t : List ℕ) → strcmp t s ≡ flip (strcmp s t)
unfolding strcmp flip
strcmp-flip [] [] = refl
strcmp-flip [] (y ∷ t) = refl
strcmp-flip (x ∷ s) [] = refl
strcmp-flip (x ∷ s) (y ∷ t) = by-flip x y _ _ (λ _. strcmp-flip s t)

or_else-flip : (s t u v : Sign) → u ≡ flip s → v ≡ flip t → or_else u v ≡ flip (or_else s t)
unfolding flip or_else
or_else-flip minus t u v e f = rw e refl
or_else-flip same t u v e f = rw e f
or_else-flip plus t u v e f = rw e refl

by_name-flip : (sonames : Bool) (a b : Ranked) → by_name sonames b a ≡ flip (by_name sonames a b)
unfolding flip
by_name-flip true a b =
    or_else-flip _ _ _ _ (strcmp-flip a.soname b.soname) (strcmp-flip a.filename b.filename)
by_name-flip false a b = or_else-flip same _ same _ refl (strcmp-flip a.filename b.filename)

by_trans :
    (x y z : ℕ) (s t u : Sign)
    → (x ≡ y → y ≡ z → s ≡ minus → t ≡ minus → u ≡ minus)
    → by x y s ≡ minus
    → by y z t ≡ minus
    → by x z u ≡ minus
unfolding by
by_trans x y z s t u h p q = ground (arith, h)

strcmp-same : (s t : List ℕ) → strcmp s t ≡ same → s ≡ t
unfolding strcmp by
strcmp-same [] [] e = refl
strcmp-same [] (y ∷ t) e = absurd (cc e)
strcmp-same (x ∷ s) [] e = absurd (cc e)
strcmp-same (x ∷ s) (y ∷ t) e = ground (arith, strcmp-same s t)

strcmp_trans : (s t u : List ℕ) → strcmp s t ≡ minus → strcmp t u ≡ minus → strcmp s u ≡ minus
unfolding strcmp
strcmp_trans [] [] u p q = absurd (cc p)
strcmp_trans [] (y ∷ t) [] p q = absurd (cc q)
strcmp_trans [] (y ∷ t) (z ∷ u) p q = refl
strcmp_trans (x ∷ s) [] u p q = absurd (cc p)
strcmp_trans (x ∷ s) (y ∷ t) [] p q = absurd (cc q)
strcmp_trans (x ∷ s) (y ∷ t) (z ∷ u) p q =
    by_trans x y z _ _ _ (λ _ _ a b. strcmp_trans s t u a b) p q

by_down_trans :
    (x y z : ℕ) (s t u : Sign)
    → (x ≡ y → y ≡ z → s ≡ minus → t ≡ minus → u ≡ minus)
    → by y x s ≡ minus
    → by z y t ≡ minus
    → by z x u ≡ minus
unfolding by
by_down_trans x y z s t u h p q = ground (arith, h)

or_else-minus : (s r : Sign) → or_else s r ≡ minus → (s ≡ minus) ⊎ ((s ≡ same) × (r ≡ minus))
unfolding or_else
or_else-minus minus r e = inl refl
or_else-minus same r e = inr (refl, e)
or_else-minus plus r e = absurd (cc e)

module _ (k l m : List ℕ) (f g h : Sign) where
  names_trans :
      (f ≡ minus → g ≡ minus → h ≡ minus)
      → or_else (strcmp k l) f ≡ minus
      → or_else (strcmp l m) g ≡ minus
      → or_else (strcmp k m) h ≡ minus
  unfolding or_else
  names_trans step p q = elim (or_else-minus (strcmp k l) f p) [
    | inl a ↦ elim (or_else-minus (strcmp l m) g q) [
      | inl b ↦ rw (strcmp_trans k l m a b) refl
      | inr b ↦ rw (← strcmp-same l m b.0) (rw a refl)
    ]
    | inr a ↦ elim (or_else-minus (strcmp l m) g q) [
      | inl b ↦ rw (strcmp-same k l a.0) (rw b refl)
      | inr b ↦ rw (strcmp-same k l a.0) (rw (b.0) (step a.1 b.1))
    ]
  ]

by_name_trans :
    (sonames : Bool) (a b c : Ranked)
    → by_name sonames a b ≡ minus
    → by_name sonames b c ≡ minus
    → by_name sonames a c ≡ minus
unfolding or_else
by_name_trans true a b c p q =
    names_trans a.soname b.soname c.soname _ _ _ (strcmp_trans a.filename b.filename c.filename) p q
by_name_trans false a b c p q = strcmp_trans a.filename b.filename c.filename p q

-- Swapping the arguments of `refs_cmp` turns the sign of its result.
pub refs_cmp-flip : (a b : Ranked) → refs_cmp b a ≡ flip (refs_cmp a b)
unfolding refs_cmp
refs_cmp-flip a b = by-flip (linker_rank a) (linker_rank b) _ _ (λ _.
    by-flip b.refs a.refs _ _ (λ e.
      by-flip (extent b) (extent a) _ _
        (λ _. ap (λ n. by_name (not (n == 0)) b a) e ∙ by_name-flip (not (a.refs == 0)) a b)))

-- A library that `refs_cmp` puts before a second one, which it puts before a third, it puts before
-- the third.
pub refs_cmp_trans :
    (a b c : Ranked) → refs_cmp a b ≡ minus → refs_cmp b c ≡ minus → refs_cmp a c ≡ minus
unfolding refs_cmp
refs_cmp_trans a b c = by_trans (linker_rank a) (linker_rank b) (linker_rank c) _ _ _ (λ _ _.
    by_down_trans a.refs b.refs c.refs _ _ _ (λ e _.
      by_down_trans (extent a) (extent b) (extent c) _ _ _ (λ _ _ p q.
        by_name_trans (not (a.refs == 0)) a b c p (ap (λ n. by_name (not (n == 0)) b c) e ∙ q))))
