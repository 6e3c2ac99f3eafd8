-- ===== src/RelocSections/FindsSections.antt =====
-- The sections that `find_reloc_sections` returns are the ones that the tags name.
use prelink_cross.Base.{
  ℕ, ◌+◌, ◌<◌, ◌≡◌, refl, ◌∙◌, Bool, true, false, ◌&&◌, not, Option, none, some, List, arith,
  get_elem?, ◌==◌, add64, sub64, Bool-cases, Option-cases, inl, inr, ap, subst, sym,
}
use prelink_cross.Dso.{Dso, Shdr, addr_to_sec}
use prelink_cross.Data.{M, ◌>>=◌, pure}
use prelink_cross.RelocSections.{
  Dynamic, RelocInfo, no_sections, reloc_type, start_of, end_of, is_plt, surrounded, find_dyn,
  needs, check_plt, find_plt, last_dyn, store, join_plt, find_rest, find_reloc_sections,
}
use prelink_cross.RelocSections.Surrounded.{Surround, surrounded-Surround, addr_to_sec-shdr}

-- What a result is to be: of the relocations with a first section other than 0, the first section
-- and the last one, which may be followed by that of the PLT.
abbrev Found : Dynamic → List Shdr → RelocInfo → Type 0
Found y l r =
    0 < r.first
    → (last : ℕ) × (r.last ≡ last_dyn r.overlap last)
      × Surround l (reloc_type (y.is_set 7)) (start_of y) (end_of y) r.first last

abbrev Finds : Dynamic → List Shdr → Option (Option RelocInfo × Dso) → Type 0
Finds y l none = Unit
Finds y l (some (none, d)) = Unit
Finds y l (some (some r, d)) = Found y l r

module _ (need : Option (ℕ → ℕ → M Bool)) (y : Dynamic) (l : List Shdr) where
  store-Finds :
      (r : RelocInfo) (overlap : Bool) (first last : ℕ) (d : Dso)
      → (0 < first → Surround l (reloc_type (y.is_set 7)) (start_of y) (end_of y) first last)
      → Finds y l (store need (y.is_set 7) r overlap first last d)
  unfolding store
  store-Finds r overlap first last d h = decided (
      needs need (not (y.is_set 7) && not (first == 0)) first
        (elim (last_dyn overlap last) [ none ↦ 0 | some l' ↦ l' ]) d)
    where
      decided :
          (w : Option (Bool × Dso))
          → Finds y l (
              ((λ d'. w) >>= (λ b. pure (
                  some (record r {
                    first = first;
                    last = last_dyn overlap last;
                    overlap = overlap;
                    rel_to_rela = b;
                  }))))
                d)
      decided none = tt
      decided (some (b, d')) = λ pos. (last, refl, h pos)

  join_plt-Finds :
      (r : RelocInfo) (pltstart pltend : ℕ) (found : Option (ℕ × ℕ)) (d : Dso)
      → r.first ≡ 0
      → ((first last : ℕ)
          → found ≡ some (first, last)
          → 0 < first
          → Surround l (reloc_type (y.is_set 7)) (start_of y) (end_of y) first last)
      → Finds y l (join_plt need (y.is_set 7) r (start_of y) (end_of y) pltstart pltend found d)
  unfolding join_plt
  join_plt-Finds r pltstart pltend none d z h = tt
  join_plt-Finds r pltstart pltend (some (first, last)) d z h =
      elim (Bool-cases
        (not (pltstart == end_of y) && not (pltend == end_of y) && not (last + 1 == r.plt))) [
          | inl p ↦ rw (join_plt, p) tt
          | inr p ↦ elim (Bool-cases (pltstart == start_of y && pltend == end_of y)) [
            | inl q ↦ rw (join_plt, p, q) (λ pos. absurd (omega arith))
            | inr q ↦
                rw (join_plt, p, q)
                  (store-Finds r (not (pltstart == end_of y) && pltend == end_of y) first last d
                    (h first last refl))
          ]
        ]

  -- The searches keep the sections.
  find_rest-Finds :
      (r : RelocInfo) (pltstart pltend : ℕ) (d : Dso)
      → d.shdr ≡ l
      → r.first ≡ 0
      → Finds y l (find_rest need y pltstart pltend (some r) d)
  unfolding find_rest find_dyn
  find_rest-Finds r pltstart pltend d same z =
      elim (Bool-cases (start_of y == 0 && end_of y == 0)) [
        | inl p ↦ rw (find_rest, p) (λ pos. absurd (omega arith))
        | inr p ↦ elim (Bool-cases (start_of y == end_of y)) [
          | inl q ↦
              rw (find_rest, find_dyn, p, q)
                (join_plt-Finds r pltstart pltend (some (0, 0)) d z
                  (λ first last e pos. absurd (let e0 : 0 ≡ first = cc e in omega arith)))
          | inr q ↦
              let one = addr_to_sec d (start_of y) in
              let two = addr_to_sec one.1 (sub64 (end_of y) 1) in
              let kept : two.1.shdr ≡ l =
                addr_to_sec-shdr one.1 (sub64 (end_of y) 1)
                ∙ addr_to_sec-shdr d (start_of y)
                ∙ same in
              rw (find_rest, find_dyn, p, q)
                (join_plt-Finds r pltstart pltend
                  (surrounded (y.is_set 7) (start_of y) (end_of y) one.0 two.0 two.1.shdr) two.1 z
                  (λ first last e pos.
                    subst
                      (λ x. Surround x (reloc_type (y.is_set 7)) (start_of y) (end_of y) first last)
                      kept
                      (surrounded-Surround (y.is_set 7) (start_of y) (end_of y) one.0 two.0
                        two.1.shdr first last e)))
        ]
      ]

-- What the architecture's `need_rel_to_rela` leaves as it is.
unfoldable pub KeepsSections : Option (ℕ → ℕ → M Bool) → Type 0
KeepsSections none = Unit
KeepsSections (some f) =
    (first last : ℕ) (d : Dso) (b : Bool) (d' : Dso)
    → f first last d ≡ some (b, d')
    → d'.shdr ≡ d.shdr

-- What the search for the PLT leaves as it is.
abbrev Kept : List Shdr → Option (Option RelocInfo × Dso) → Type 0
Kept l none = Unit
Kept l (some (none, d)) = Unit
Kept l (some (some r, d)) = (d.shdr ≡ l) × (r.first ≡ 0)

module _ (y : Dynamic) (l : List Shdr) where
  needs-shdr :
      (need : Option (ℕ → ℕ → M Bool)) (asked : Bool) (first last : ℕ) (d : Dso) (b : Bool)
      (d' : Dso)
      → KeepsSections need
      → needs need asked first last d ≡ some (b, d')
      → d'.shdr ≡ d.shdr
  unfolding KeepsSections
  needs-shdr need false first last d b d' k e = let p : d ≡ d' = cc e in ap (λ x. x.shdr) (sym p)
  needs-shdr none true first last d b d' k e = let p : d ≡ d' = cc e in ap (λ x. x.shdr) (sym p)
  needs-shdr (some f) true first last d b d' k e = k first last d b d' e

  module _ (need : Option (ℕ → ℕ → M Bool)) (keeps : KeepsSections need) where
    check_plt-Kept :
        (r : RelocInfo) (start end : ℕ) (n m : Option ℕ) (d : Dso)
        → d.shdr ≡ l
        → r.first ≡ 0
        → Kept l (check_plt need y r start end n m d)
    unfolding check_plt
    check_plt-Kept r start end none m d same z = tt
    check_plt-Kept r start end (some n) none d same z = tt
    check_plt-Kept r start end (some n) (some m) d same z =
        elim (Option-cases (get_elem? d.shdr n)) [
          | inl q ↦ rw (check_plt, q) tt
          | inr (s, q) ↦ elim (Bool-cases (n == m && is_plt y s start end)) [
            | inr p ↦ rw (check_plt, q, p) tt
            | inl p ↦ elim (Option-cases (needs need (s.sh_type == 9) n n d)) [
              | inl w ↦ rw (check_plt, q, p, w) tt
              | inr ((b, d'), w) ↦
                  rw (check_plt, q, p, w)
                    (needs-shdr need (s.sh_type == 9) n n d b d' keeps w ∙ same, z)
            ]
          ]
        ]

    find_plt-Kept :
        (r : RelocInfo) (start end : ℕ) (d : Dso)
        → d.shdr ≡ l
        → r.first ≡ 0
        → Kept l (find_plt need y r start end d)
    unfolding find_plt
    find_plt-Kept r start end d same z =
        let one = addr_to_sec d start in
        let two = addr_to_sec one.1 (sub64 end 1) in
        check_plt-Kept r start end one.0 two.0 two.1
          (addr_to_sec-shdr one.1 (sub64 end 1) ∙ addr_to_sec-shdr d start ∙ same) z

    -- The rest, behind the PLT.
    behind_plt :
        (pltstart pltend : ℕ) (w : Option (Option RelocInfo × Dso))
        → Kept l w
        → Finds y l
            (elim w [ none ↦ none | some (found, d) ↦ find_rest need y pltstart pltend found d ])
    unfolding find_rest
    behind_plt pltstart pltend none k = tt
    behind_plt pltstart pltend (some (none, d)) k = tt
    behind_plt pltstart pltend (some (some r, d)) k =
        find_rest-Finds need y l r pltstart pltend d k.0 k.1

find_reloc_sections-Finds :
    (need : Option (ℕ → ℕ → M Bool)) (y : Dynamic) (d : Dso)
    → KeepsSections need
    → Finds y d.shdr (find_reloc_sections need y d)
unfolding find_reloc_sections
find_reloc_sections-Finds need y d keeps = elim (Bool-cases (y.is_set 17 && y.is_set 7)) [
  | inl p ↦ rw (find_reloc_sections, p) tt
  | inr p ↦ elim (Bool-cases (y.info 23 == 0)) [
    | inl q ↦
        rw (find_reloc_sections, p, q)
          (find_rest-Finds need y d.shdr (record no_sections { reldyn_rela = y.is_set 7 })
            (end_of y) (end_of y) d refl refl)
    | inr q ↦
        rw (find_reloc_sections, p, q)
          (behind_plt y d.shdr need keeps (y.info 23) (add64 (y.info 23) (y.info 2)) _ (
            find_plt-Kept y d.shdr need keeps (record no_sections { reldyn_rela = y.is_set 7 })
              (y.info 23) (add64 (y.info 23) (y.info 2)) d refl refl))
  ]
]

-- Where `find_reloc_sections` returns 0 with a first section other than 0, that section starts at
-- the address of DT_RELA or DT_REL, another one ends where DT_RELASZ or DT_RELSZ says, all sections
-- from the one to the other are of the type of the tag, and the `last` that is returned is that
-- other one, or with `overlap`, the one before it. The architecture's function is
-- taken to keep the sections.
pub find_reloc_sections-Surround :
    (need : Option (ℕ → ℕ → M Bool)) (y : Dynamic) (d : Dso) (r : RelocInfo) (d' : Dso)
    → KeepsSections need
    → find_reloc_sections need y d ≡ some (some r, d')
    → 0 < r.first
    → (last : ℕ) × (r.last ≡ last_dyn r.overlap last)
      × Surround d.shdr (reloc_type (y.is_set 7)) (start_of y) (end_of y) r.first last
find_reloc_sections-Surround need y d r d' keeps e pos =
    subst (Finds y d.shdr) e (find_reloc_sections-Finds need y d keeps) pos
