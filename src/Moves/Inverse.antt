-- ===== src/Moves/Inverse.antt =====
-- The two tables of a move stay inverse to each other.
use prelink_cross.Base.{
  ℕ, zero, suc, ◌+◌, ◌≤◌, ◌<◌, ◌≡◌, ◌⊎◌, refl, ap, sym, ◌∙◌, Option, none, some, map, length, leb,
  ltb, ◌==◌, arith, get_elem?, Bool-cases, inl, inr,
}
use prelink_cross.Moves.{
  SectionMove, count_from, init_section_move, open_gap, close_gap, raise, lower, add_section,
  remove_section,
}
use prelink_cross.Moves.Gaps.{
  get_elem?-count_from, count_from-some, get_elem?-open_below, get_elem?-open_at,
  get_elem?-open_above, get_elem?-close_below, get_elem?-close_above, get_elem?-map, map-get_elem?,
  map_tail-map,
}

-- Old section `i` is new section `j`.
abbrev pub Becomes : SectionMove → ℕ → ℕ → Type 0
Becomes m i j = get_elem? m.old_to_new i ≡ some (some j)

-- New section `j` is old section `i`.
abbrev pub ComesFrom : SectionMove → ℕ → ℕ → Type 0
ComesFrom m j i = get_elem? m.new_to_old j ≡ some (some i)

-- The tables are inverse to each other, and the section 0 stays.
pub record IsInverse (m : SectionMove) : Type 0 where
  pub first_old : get_elem? m.old_to_new 0 ≡ some (some 0)
  pub first_new : get_elem? m.new_to_old 0 ≡ some (some 0)
  pub forth : (i j : ℕ) → Becomes m i j → ComesFrom m j i
  pub back : (i j : ℕ) → ComesFrom m j i → Becomes m i j

-- Where an index lies beside `sec`.
abbrev Position : ℕ → ℕ → Type 0
Position j sec = (j < sec) ⊎ (j ≡ sec) ⊎ ((k : ℕ) × (j ≡ suc k) × (sec ≤ k))

position : (j sec : ℕ) → Position j sec
position zero zero = inr (inl refl)
position zero (suc sec) = inl (omega arith)
position (suc j) sec = elim (Bool-cases (ltb (suc j) sec)) [
  | inl h ↦ inl (ground arith)
  | inr h ↦ elim (Bool-cases (suc j == sec)) [
    | inl g ↦ inr (inl (ground arith))
    | inr g ↦ inr (inr (j, refl, ground arith))
  ]
]

module _ (m : SectionMove) (inv : IsInverse m) (sec : ℕ) (pos : 0 < sec) where
  module _ (fits : sec ≤ length m.new_to_old) where
    abbrev added : SectionMove
    added = record {
      old_to_new = map (raise sec) m.old_to_new;
      new_to_old = open_gap m.new_to_old sec;
    }

    added_forth :
        (i j : ℕ) (p : Option ℕ)
        → get_elem? m.old_to_new i ≡ some p
        → some j ≡ raise sec p
        → ComesFrom added j i
    unfolding raise
    added_forth i j none g q = absurd (cc q)
    added_forth i j (some k) g q = elim (Bool-cases (leb sec k)) [
      | inl h ↦
          let e : j ≡ suc k = ground arith in
          rw e (get_elem?-open_above m.new_to_old sec k fits (ground arith) ∙ inv.forth i k g)
      | inr h ↦
          let e : j ≡ k = ground arith in
          rw e (get_elem?-open_below m.new_to_old sec k fits (ground arith) ∙ inv.forth i k g)
    ]

    raised : (i k j : ℕ) → ComesFrom m k i → raise sec (some k) ≡ some j → Becomes added i j
    raised i k j c e =
        get_elem?-map (raise sec) m.old_to_new i (some k) (inv.back i k c) ∙ ap some e

    added_back : (i j : ℕ) → ComesFrom added j i → Becomes added i j
    unfolding raise
    added_back i j e = elim (position j sec) [
      | inl h ↦
          raised i j j (sym (get_elem?-open_below m.new_to_old sec j fits h) ∙ e) (ground arith)
      | inr (inl h) ↦ absurd (cc (e, get_elem?-open_at m.new_to_old sec fits, h))
      | inr (inr (k, h, g)) ↦
          raised i k j
            (sym (get_elem?-open_above m.new_to_old sec k fits g)
              ∙ ap (λ t. get_elem? (open_gap m.new_to_old sec) t) (sym h)
              ∙ e)
            (ground arith)
    ]

    added-IsInverse : IsInverse added
    unfolding raise
    added-IsInverse = record {
      first_old =
          get_elem?-map (raise sec) m.old_to_new 0 (some 0) inv.first_old ∙ ap some (ground arith);
      first_new = get_elem?-open_below m.new_to_old sec 0 fits pos ∙ inv.first_new;
      forth = λ i j e.
          let (p, g, q) = map-get_elem? (raise sec) m.old_to_new i (some j) e in
          added_forth i j p g q;
      back = added_back;
    }

  abbrev removed : SectionMove
  removed = record {
    old_to_new = map (lower sec) m.old_to_new;
    new_to_old = close_gap m.new_to_old sec;
  }

  removed_forth :
      (i j : ℕ) (p : Option ℕ)
      → get_elem? m.old_to_new i ≡ some p
      → some j ≡ lower sec p
      → ComesFrom removed j i
  unfolding lower
  removed_forth i j none g q = absurd (cc q)
  removed_forth i j (some k) g q = elim (position k sec) [
    | inl h ↦
        let e : j ≡ k = ground arith in
        rw e (get_elem?-close_below m.new_to_old sec k h ∙ inv.forth i k g)
    | inr (inl h) ↦ absurd (ground arith)
    | inr (inr (n, h, le)) ↦
        let e : j ≡ n = ground arith in
        rw e (
          get_elem?-close_above m.new_to_old sec n le
          ∙ ap (λ t. get_elem? m.new_to_old t) (sym h)
          ∙ inv.forth i k g)
  ]

  lowered : (i k j : ℕ) → ComesFrom m k i → lower sec (some k) ≡ some j → Becomes removed i j
  lowered i k j c e = get_elem?-map (lower sec) m.old_to_new i (some k) (inv.back i k c) ∙ ap some e

  removed_back : (i j : ℕ) → ComesFrom removed j i → Becomes removed i j
  unfolding lower
  removed_back i j e = elim (Bool-cases (ltb j sec)) [
    | inl h ↦
        lowered i j j (sym (get_elem?-close_below m.new_to_old sec j (ground arith)) ∙ e)
          (ground arith)
    | inr h ↦
        lowered i (suc j) j (sym (get_elem?-close_above m.new_to_old sec j (ground arith)) ∙ e)
          (ground arith)
  ]

  removed-IsInverse : IsInverse removed
  unfolding lower
  removed-IsInverse = record {
    first_old =
        get_elem?-map (lower sec) m.old_to_new 0 (some 0) inv.first_old ∙ ap some (ground arith);
    first_new = get_elem?-close_below m.new_to_old sec 0 pos ∙ inv.first_new;
    forth = λ i j e.
        let (p, g, q) = map-get_elem? (lower sec) m.old_to_new i (some j) e in
        removed_forth i j p g q;
    back = removed_back;
  }

count_from-swap :
    (n i j : ℕ)
    → get_elem? (count_from 0 n) i ≡ some (some j)
    → get_elem? (count_from 0 n) j ≡ some (some i)
count_from-swap n i j e =
    let q = count_from-some 0 n i (some j) e in
    let same : j ≡ i = ground arith in rw same (e ∙ ap (λ t. some (some t)) same)

-- A move of at least one section starts with tables that are inverse to each other.
pub init_section_move-IsInverse : (shnum : ℕ) → 0 < shnum → IsInverse (init_section_move shnum)
unfolding init_section_move
init_section_move-IsInverse shnum pos = record {
  first_old = get_elem?-count_from 0 shnum 0 pos;
  first_new = get_elem?-count_from 0 shnum 0 pos;
  forth = λ i j e. count_from-swap shnum i j e;
  back = λ i j e. count_from-swap shnum j i e;
}

-- While fewer than 20 sections have been added, adding one behind the first succeeds, keeps the
-- tables inverse to each other, and the new section comes from none.
pub add_section-IsInverse :
    (m : SectionMove) (sec : ℕ)
    → IsInverse m
    → 0 < sec
    → sec ≤ length m.new_to_old
    → length m.new_to_old < length m.old_to_new + 20
    → (m' : SectionMove) × (add_section m sec ≡ some m')
      × IsInverse m'
      × (get_elem? m'.new_to_old sec ≡ some none)
unfolding add_section raise
add_section-IsInverse m sec inv pos fits few =
    let same = map_tail-map (raise sec) m.old_to_new inv.first_old (ground arith) in
    (
      added m inv sec pos fits,
      rw same (ground arith),
      added-IsInverse m inv sec pos fits,
      get_elem?-open_at m.new_to_old sec fits,
    )

-- Removing a section other than the first succeeds and keeps the tables inverse to each other.
pub remove_section-IsInverse :
    (m : SectionMove) (sec : ℕ)
    → IsInverse m
    → 0 < sec
    → sec < length m.new_to_old
    → (m' : SectionMove) × (remove_section m sec ≡ some m') × IsInverse m'
unfolding remove_section lower
remove_section-IsInverse m sec inv pos fits =
    let same = map_tail-map (lower sec) m.old_to_new inv.first_old (ground arith) in
    (removed m inv sec pos, rw same (ground arith), removed-IsInverse m inv sec pos)
