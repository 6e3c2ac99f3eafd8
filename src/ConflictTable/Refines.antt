-- ===== src/ConflictTable/Refines.antt =====
-- What the conflicts promise: a map from an offset and a class to what was recorded first, which
-- refuses a line that says otherwise.
use prelink_cross.Base.{
  ℕ, ◌+◌, ◌*◌, ◌≤◌, ◌≡◌, refl, sym, ap, ◌∙◌, Bool, true, false, ◌&&◌, Option, none, some, List, [],
  ◌∷◌, arith, ◌==◌, if◌then◌else◌, Bool-cases, Option-cases, inl, inr, u32, length-replicate,
}
use prelink_cross.Reloc.{Conflict}
use prelink_cross.ConflictTable.{
  Entry, Hash, chain, buckets, Conflicts, no_conflicts, Line, Result, ok, err, differs, no_memory,
  undefined_, entry_of, same_key, find_in, chain_of, conflict_hash_init, add_entry, count_up,
  agrees, record_line, record_lines, prelink_conflict,
}
use prelink_cross.ConflictTable.Buckets.{
  find, value_of, IsShaped, IsDistinct, find-add_entry, find-conflict_hash_init, find-mark_in,
  IsShaped-mark_in, no_entry, length-distribute, length-push,
}

-- The abstract state.
abbrev pub Spec : Type 0
Spec = ℕ → ℕ → Option Conflict

abbrev pub nothing_recorded : Spec
nothing_recorded s c = none

abbrev pub extend : Spec → ℕ → Conflict → Spec
extend f symoff v s c = if symoff == s && v.reloc_class == c then some v else f s c

-- One line and all lines. Of the two allocations only that of the conflict is seen.
unfoldable pub spec_line : Spec → Line → Result Spec
spec_line f x = elim (f x.symoff x.value.reloc_class) [
  | some v ↦ if agrees v x.value then ok f else err differs
  | none ↦ if x.malloc then ok (extend f x.symoff x.value) else err no_memory
]

unfoldable pub spec_lines : Spec → List Line → Result Spec
spec_lines f [] = ok f
spec_lines f (x ∷ xs) = elim (spec_line f x) [ ok g ↦ spec_lines g xs | err e ↦ err e ]

-- The chains stand for the map.
pub record Refines (t : Conflicts) (f : Spec) : Type 0 where
  pub shaped : IsShaped t.hash t.count
  pub finds : (s c : ℕ) → value_of (find t.hash s c) ≡ f s c

abbrev pub BothRefine : Result Conflicts → Result Spec → Type 0
BothRefine (ok t) (ok f) = Refines t f
BothRefine (err e) (err e') = e ≡ e'
BothRefine (ok t) (err e) = ⊥
BothRefine (err e) (ok f) = ⊥

-- The count at the new conflict.
abbrev IfCounted : Option Hash → Hash → ℕ → Type 0
IfCounted none h n = ⊥
IfCounted (some h') h n = IsShaped h' n × ((s c : ℕ) → find h' s c ≡ find h s c)

IsShaped-conflict_hash_init :
    (got : Bool) (l : List Entry) (n : ℕ)
    → 16 ≤ n
    → IsDistinct l
    → IsShaped (conflict_hash_init got l) n
unfolding conflict_hash_init
IsShaped-conflict_hash_init false l n big h = h
IsShaped-conflict_hash_init true l n big h =
    (length-distribute l _ ∙ length-replicate 251 no_entry, big)

count_up_lem :
    (got : Bool) (h : Hash) (n : ℕ) → IsShaped h n → IfCounted (count_up got h (n + 1)) h (n + 1)
unfolding count_up chain_of
count_up_lem got (chain l) n h = elim (Bool-cases ((n + 1) == 16)) [
  | inl p ↦ rw p (
    IsShaped-conflict_hash_init got l (n + 1) (ground (arith, p)) h,
    λ s c. find-conflict_hash_init got l s c h,
  )
  | inr p ↦ rw p (h, λ s c. refl)
]
count_up_lem got (buckets bs) n (len, big) =
    let p : ((n + 1) == 16) ≡ false = ground arith in rw p ((len, omega arith), λ s c. refl)

IsShaped-add_entry :
    (h : Hash) (n : ℕ) (e : Entry)
    → IsShaped h n
    → find h e.symoff e.value.reloc_class ≡ none
    → IsShaped (add_entry h e) n
unfolding add_entry chain_of
IsShaped-add_entry (chain l) n e h new = (new, h)
IsShaped-add_entry (buckets bs) n e (len, big) new = (length-push bs e ∙ len, big)

-- A new conflict.
module _ (t : Conflicts) (f : Spec) (x : Line) (r : Refines t f) where
  after_add :
      (o : Option Hash)
      → IfCounted o (add_entry t.hash (entry_of x)) (t.count + 1)
      → BothRefine
          (elim o [
            | none ↦ err undefined_
            | some h ↦ ok (record { hash = h; count = t.count + 1 })
          ])
          (ok (extend f x.symoff x.value))
  after_add none h = absurd h
  after_add (some h') (shaped, same) = record {
    shaped = shaped;
    finds = λ s c.
        ap value_of (same s c ∙ find-add_entry t.hash t.count (entry_of x) s c r.shaped)
        ∙ elim (Bool-cases (same_key (entry_of x) s c)) [
          | inl p ↦ rw p refl
          | inr p ↦ rw p (r.finds s c)
        ];
  }

  at_absent :
      find t.hash x.symoff x.value.reloc_class ≡ none → BothRefine (record_line t x) (spec_line f x)
  unfolding record_line spec_line
  at_absent e =
      let g : f x.symoff x.value.reloc_class ≡ none =
        sym (r.finds x.symoff x.value.reloc_class) ∙ ap value_of e in
      elim (Bool-cases x.malloc) [
        | inl p ↦
            rw (record_line, spec_line, e, g, p)
              (after_add _
                (count_up_lem x.calloc _ t.count (IsShaped-add_entry t.hash t.count _ r.shaped e)))
        | inr p ↦ rw (record_line, spec_line, e, g, p) refl
      ]

  at_present :
      (e : Entry)
      → find t.hash x.symoff x.value.reloc_class ≡ some e
      → BothRefine (record_line t x) (spec_line f x)
  unfolding record_line spec_line
  at_present e p =
      let g : f x.symoff x.value.reloc_class ≡ some e.value =
        sym (r.finds x.symoff x.value.reloc_class) ∙ ap value_of p in
      elim (Bool-cases (agrees e.value x.value)) [
        | inl q ↦ rw (record_line, spec_line, p, g, q) r
        | inr q ↦ rw (record_line, spec_line, p, g, q) refl
      ]

  record_line-spec_line : BothRefine (record_line t x) (spec_line f x)
  record_line-spec_line = elim (Option-cases (find t.hash x.symoff x.value.reloc_class)) [
    | inl e ↦ at_absent e
    | inr (e, p) ↦ at_present e p
  ]

after_line :
    (x : Line) (xs : List Line)
    → ((t : Conflicts) (f : Spec) → Refines t f → BothRefine (record_lines t xs) (spec_lines f xs))
    → (a : Result Conflicts) (b : Result Spec) → BothRefine a b
    → BothRefine
        (elim a [ ok t' ↦ record_lines t' xs | err e ↦ err e ])
        (elim b [ ok g ↦ spec_lines g xs | err e ↦ err e ])
after_line x xs h (ok t') (ok g) s = h t' g s
after_line x xs h (err e) (err e') s = s
after_line x xs h (ok t') (err e) s = absurd s
after_line x xs h (err e) (ok g) s = absurd s

-- From conflicts that stand for a map on, recording lines either fails with the error of the map,
-- or leaves conflicts that stand for the map that the lines leave.
record_lines-spec_lines :
    (xs : List Line) (t : Conflicts) (f : Spec)
    → Refines t f
    → BothRefine (record_lines t xs) (spec_lines f xs)
unfolding record_lines spec_lines
record_lines-spec_lines [] t f r = r
record_lines-spec_lines (x ∷ xs) t f r =
    after_line x xs (λ t' g s. record_lines-spec_lines xs t' g s) (record_line t x) (spec_line f x)
      (record_line-spec_line t f x r)

no_conflicts-Refines : Refines no_conflicts nothing_recorded
unfolding chain_of find_in
no_conflicts-Refines = record { shaped = tt; finds = λ s c. refl }

-- However many lines there are, and whether the chains are spread or not, recording them fails
-- exactly where the map from offsets and classes to conflicts refuses a line, and with its error;
-- otherwise the chains find for each offset and class what the map has.
pub record_lines-BothRefine :
    (xs : List Line) → BothRefine (record_lines no_conflicts xs) (spec_lines nothing_recorded xs)
record_lines-BothRefine xs =
    record_lines-spec_lines xs no_conflicts nothing_recorded no_conflicts-Refines

-- What `prelink_conflict` returns is what the map has for the offset of the symbol and the class,
-- and its mark leaves the chains standing for the same map.
pub prelink_conflict-Refines :
    (t : Conflicts) (f : Spec) (start entsize r_sym reloc_class : ℕ)
    → Refines t f
    → let (found, t') = prelink_conflict t (start, entsize) r_sym reloc_class in
      (found ≡ f (u32 (start + r_sym * entsize)) reloc_class) × Refines t' f
unfolding prelink_conflict
prelink_conflict-Refines t f start entsize r_sym c r =
    let s = u32 (start + r_sym * entsize) in
    elim (Option-cases (find t.hash s c)) [
      | inl e ↦ rw (prelink_conflict, e) (sym (ap value_of e) ∙ r.finds s c, r)
      | inr (x, e) ↦
          rw (prelink_conflict, e)
            (
              sym (ap value_of e) ∙ r.finds s c,
              record {
                shaped = IsShaped-mark_in t.hash t.count s c r.shaped;
                finds = λ s' c'. find-mark_in t.hash t.count s' c' s c r.shaped ∙ r.finds s' c';
              },
            )
    ]
