-- ===== src/Layout/Placed.antt =====
-- The loop that places the libraries: what holds of the list of the placed ones.
use prelink_cross.Base.{
  ℕ, ◌+◌, ◌^◌, ◌≤◌, ◌<◌, ◌≡◌, ◌≢◌, refl, sym, subst, ◌⊎◌, inl, inr, Bool, true, Option, none, some,
  List, [], ◌∷◌, ◌==◌, arith, All, All-map, Any, Any-map, Within, Any-Within, Within-trans,
  Within-self, Within-insert, Any-insert, Bool-cases,
}
use prelink_cross.Layout.{
  Entry, Slot, Region, size_of, move_to, place, place_libs, unwind, insert_at, marks, seen_by,
}
use prelink_cross.Layout.Pairs.{Pairs, All-insert, Pairs-insert, All-append_left, All-append_right}
use prelink_cross.Layout.Apart.{must_part, AreApart, AreApart-sym, seen_by-must_part}
use prelink_cross.Layout.Search.{IsFree, Below, IsRoomy, Found, IfFound, find_slot-IfFound}
use prelink_cross.Layout.Insertion.{insert_at-Inserted}

-- Where a library was put.
pub record IsPlaced (r : Region) (x y : Entry) : Type 0 where
  pub same_id : y.id ≡ x.id
  pub start : r.mmap_start ≤ y.base
  pub size : y.layend ≡ y.base + size_of x
  pub stop : y.layend ≤ r.mmap_fin

-- The list is sorted, its entries do not overlap where they must not, they end by `top` and start by
-- `mmap_fin`.
pub record IsLaidOut (r : Region) (top : ℕ) (conserve_memory : Bool) (binlibs : List (List ℕ))
    (l : List Entry) : Type 0 where
  pub sorted : Pairs Below l
  pub apart : Pairs (AreApart conserve_memory binlibs) l
  pub bounded : All (λ e. (e.layend ≤ top) × (e.base ≤ r.mmap_fin)) l

module _ (r : Region) (top : ℕ) (conserve_memory : Bool) (binlibs : List (List ℕ))
    (order : r.mmap_start ≤ r.mmap_fin) (below : r.mmap_fin ≤ top) where
  -- The list after one library has been placed.
  record Added (x : Entry) (l l' : List Entry) : Type 0 where
    laid_out : IsLaidOut r top conserve_memory binlibs l'
    kept : Within l l'
    placed : Any (IsPlaced r x) l'

  abbrev IfAdded : Entry → List Entry → Option (List Entry) → Type 0
  IfAdded x l none = Unit {0}
  IfAdded x l (some l') = Added x l l'

  module _ (seen : Entry → Bool) (l : List Entry) (x : Entry)
      (cover : (e : Entry) → must_part conserve_memory binlibs x e ≡ true → seen e ≡ true)
      (small : top + size_of x < 2 ^ 64) (old : IsLaidOut r top conserve_memory binlibs l) where
    moved : Slot → Entry
    moved s = move_to r.done_above r.mmap_end x s.addr

    moved-IsPlaced :
        (s : Slot) → Found seen (size_of x) r.mmap_fin r.mmap_start [] l s → IsPlaced r x (moved s)
    unfolding moved move_to
    moved-IsPlaced s f = record {
      same_id = refl;
      start = f.above;
      size = omega (arith, f.within);
      stop = omega (arith, f.within);
    }

    moved-AreApart :
        (s : Slot) (e : Entry)
        → s.addr + size_of x ≤ r.mmap_fin
        → (seen e ≡ true → IsFree s.addr (size_of x) e)
        → AreApart conserve_memory binlibs (moved s) e
    unfolding moved move_to
    moved-AreApart s e fits free = elim (Bool-cases (must_part conserve_memory binlibs x e)) [
      | inr m ↦ inl m
      | inl m ↦ elim (free (cover e m)) [ inl q ↦ inr (inl (omega arith)) | inr q ↦ inr (inr q) ]
    ]

    inserted-Added :
        (s : Slot)
        → Found seen (size_of x) r.mmap_fin r.mmap_start [] l s
        → Added x l (insert_at (moved s) s.at)
    unfolding moved move_to unwind
    inserted-Added s f =
        let high : All (Below (moved s)) s.at.after =
          All-map (λ e. s.addr + size_of x ≤ e.base) _ (λ e h. omega arith) s.at.after f.behind in
        let i = insert_at-Inserted (moved s) s.at.before s.at.after l f.kept old.sorted high in
        let free =
          All-map (λ e. seen e ≡ true → IsFree s.addr (size_of x) e)
            (AreApart conserve_memory binlibs (moved s)) (λ e h. moved-AreApart s e f.within h) l
            f.free in
        let free' = subst (All (AreApart conserve_memory binlibs (moved s))) i.old free in
        let p = moved-IsPlaced s f in
        record {
          laid_out = record {
            sorted = rw i.new (
                Pairs-insert Below i.front i.back (moved s) (subst (Pairs Below) i.old old.sorted)
                  i.low i.high);
            apart = rw i.new (
                Pairs-insert (AreApart conserve_memory binlibs) i.front i.back (moved s)
                  (subst (Pairs (AreApart conserve_memory binlibs)) i.old old.apart)
                  (All-map (AreApart conserve_memory binlibs (moved s)) _
                    (λ e h. AreApart-sym conserve_memory binlibs (moved s) e h) i.front
                    (All-append_left _ i.front i.back free'))
                  (All-append_right _ i.front i.back free'));
            bounded = rw i.new (
                All-insert _ i.front i.back (moved s)
                  (omega (arith, p.stop), omega (arith, f.within))
                  (subst (All _) i.old old.bounded));
          };
          kept = rw (i.new, i.old) (Within-insert i.front i.back (moved s));
          placed = rw i.new (
              Any-map (λ y. y ≡ moved s) (IsPlaced r x) (λ y e. subst (IsPlaced r x) (sym e) p) _
                (Any-insert i.front i.back (moved s)));
        }

    added_by :
        (o : Option Slot)
        → IfFound seen (size_of x) r.mmap_fin r.mmap_start [] l o
        → IfAdded x l (elim o [
          | none ↦ none
          | some s ↦ some (insert_at (move_to r.done_above r.mmap_end x s.addr) s.at)
        ])
    unfolding moved
    added_by none f = tt
    added_by (some s) f = inserted-Added s f

    place-IfAdded : IfAdded x l (place r seen l x)
    unfolding place
    place-IfAdded = added_by _ (
        find_slot-IfFound seen (size_of x) r.mmap_fin r.mmap_start [] l old.sorted
          (All-map _ (IsRoomy (size_of x) r.mmap_fin) (λ e h. (omega (arith, h.0), h.1)) l
            old.bounded)
          (omega arith))

  -- What the loop does: the list stays laid out and keeps its entries, and each library that was
  -- not done has its slot.
  pub record IsDone (l libs l' : List Entry) : Type 0 where
    pub laid_out : IsLaidOut r top conserve_memory binlibs l'
    pub kept : Within l l'
    pub placed : All (λ x. (x.done ≢ 0) ⊎ Any (IsPlaced r x) l') libs

  abbrev IfDone : List Entry → List Entry → Option (List Entry) → Type 0
  IfDone l libs none = Unit {0}
  IfDone l libs (some l') = IsDone l libs l'

  module _ (x : Entry) (libs l : List Entry) where
    skipped_one : (o : Option (List Entry)) → x.done ≢ 0 → IfDone l libs o → IfDone l (x ∷ libs) o
    skipped_one none n h = tt
    skipped_one (some l') n h = record {
      laid_out = h.laid_out;
      kept = h.kept;
      placed = (inl n, h.placed);
    }

    placed_one :
        (l1 : List Entry) (o : Option (List Entry))
        → Added x l l1
        → IfDone l1 libs o
        → IfDone l (x ∷ libs) o
    placed_one l1 none a h = tt
    placed_one l1 (some l') a h = record {
      laid_out = h.laid_out;
      kept = Within-trans l l1 l' a.kept h.kept;
      placed = (inr (Any-Within (IsPlaced r x) l1 l' h.kept a.placed), h.placed);
    }

    placed_by :
        (next : List Entry → Option (List Entry)) (o : Option (List Entry))
        → ((l1 : List Entry) → Added x l l1 → IfDone l1 libs (next l1))
        → IfAdded x l o
        → IfDone l (x ∷ libs) (elim o [ none ↦ none | some l1 ↦ next l1 ])
    placed_by next none rest a = tt
    placed_by next (some l1) rest a = placed_one l1 (next l1) a (rest l1 a)

  place_libs-IfDone :
      (fakes : List ℕ) (tmp : ℕ → Option ℕ) (l libs : List Entry)
      → All (λ x. top + size_of x < 2 ^ 64) libs
      → IsLaidOut r top conserve_memory binlibs l
      → IfDone l libs (place_libs r conserve_memory fakes binlibs tmp l libs)
  unfolding place_libs
  place_libs-IfDone fakes tmp l [] small old = record {
    laid_out = old;
    kept = Within-self l;
    placed = tt;
  }
  place_libs-IfDone fakes tmp l (x ∷ libs) small old =
      let tmp' = marks conserve_memory fakes binlibs tmp x.id in
      let seen = seen_by conserve_memory tmp' x.id in
      let cover = seen_by-must_part conserve_memory binlibs fakes tmp x in
      elim (Bool-cases (x.done == 0)) [
        | inl c ↦ rw c (
            placed_by x libs l (λ l1. place_libs r conserve_memory fakes binlibs tmp' l1 libs)
              (place r seen l x) (λ l1 a. place_libs-IfDone fakes tmp' l1 libs small.1 a.laid_out)
              (place-IfAdded seen l x cover small.0 old))
        | inr c ↦
            rw c (
              skipped_one x libs l _ (ground arith)
                (place_libs-IfDone fakes tmp l libs small.1 old))
      ]

  -- Let the list be sorted by address, its entries disjoint where they must be, their `layend` at
  -- most `top`, and no address wrap around, for a region that ends by `top`. Let every entry start at
  -- `mmap_fin` or below, so that no library is kept above the region. If each library gets a slot, the new list is so too, it has every entry of the old one, and every library that was not
  -- done is in it, at its size, between `mmap_start` and `mmap_fin`. Two entries must be disjoint
  -- always, or with `conserve_memory` where one binary depends on both.
  pub place_libs-IsDone :
      (fakes : List ℕ) (tmp : ℕ → Option ℕ) (l libs l' : List Entry)
      → All (λ x. top + size_of x < 2 ^ 64) libs
      → IsLaidOut r top conserve_memory binlibs l
      → place_libs r conserve_memory fakes binlibs tmp l libs ≡ some l'
      → IsDone l libs l'
  place_libs-IsDone fakes tmp l libs l' small old e =
      subst (IfDone l libs) e (place_libs-IfDone fakes tmp l libs small old)
