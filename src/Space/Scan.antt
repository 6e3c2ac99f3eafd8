-- ===== src/Space/Scan.antt =====
-- The loop over the sections of a segment in src/space.c: where the new section goes lies behind all
-- sections of the segment that come before it, and before all the others.
use prelink_cross.Base.{
  ℕ, suc, ◌+◌, ◌-◌, ◌%◌, ◌^◌, ◌<◌, ◌≤◌, ◌≡◌, ◌⊎◌, inl, inr, refl, subst, true, false, Option, none,
  some, List, [], ◌∷◌, All, ltb, add64, if◌then◌else◌, Bool-cases, arith,
}
use prelink_cross.Dso.{Shdr, Phdr}
use prelink_cross.Space.{round_up, section_end}
use prelink_cross.Space.Gap.{in_segment, scan_one, scan}
use prelink_cross.Space.Align.{round_up-parts}

-- Of the sections of segment `p`, those below number `n` end at `start` or before, and the others
-- start at `start + size` or after. `j` is the number of the first section of the list.
abbrev pub Sides : Phdr → ℕ → ℕ → ℕ → ℕ → List Shdr → Type 0
Sides p size start n j [] = Unit
Sides p size start n j (s ∷ l) =
    (in_segment p s ≡ true
      → (j < n → s.sh_addr + s.sh_size ≤ start) × (n ≤ j → start + size ≤ s.sh_addr))
    × Sides p size start n (suc j) l

abbrev AllFrom : Phdr → ℕ → List Shdr → Type 0
AllFrom p b l = All (λ (t : Shdr). in_segment p t ≡ true → b ≤ t.sh_addr) l

module _ (p : Phdr) (k size floor : ℕ) where
  -- The sections of the segment lie at `floor` or above, do not overlap, come in the order of their
  -- addresses, and leave room below 2 ^ 64.
  abbrev pub InOrder : List Shdr → Type 0
  InOrder [] = Unit
  InOrder (s ∷ l) =
      (in_segment p s ≡ true
        → ((floor ≤ s.sh_addr) × (s.sh_addr + s.sh_size + size + 2 ^ k < 2 ^ 64))
          × AllFrom p (s.sh_addr + s.sh_size) l)
      × InOrder l

  -- An aligned address that is not below `floor`, with room for the section.
  abbrev pub IsPlace : ℕ → Type 0
  IsPlace start = (start % 2 ^ k ≡ 0) × (floor ≤ start) × (start + size < 2 ^ 64)

  -- What the loop keeps of `start` and `after`: they are as they were, or the last section moved
  -- behind is in the list, so that all bounds below the sections of the list are below `start`.
  abbrev Kept : ℕ → List Shdr → ℕ → ℕ → ℕ → ℕ → Type 0
  Kept j l start after start' a =
      ((a ≡ after) × (start' ≡ start)) ⊎ ((j ≤ a) × ((b : ℕ) → AllFrom p b l → b ≤ start'))

  abbrev Outcome : ℕ → List Shdr → ℕ → ℕ → ℕ × Option ℕ → Type 0
  Outcome j l start after (start', none) = ⊥
  Outcome j l start after (start', some a) =
      IsPlace start' × Sides p size start' (suc a) j l × Kept j l start after start' a

  Outcome-skip :
      (j : ℕ) (s : Shdr) (l : List Shdr) (start after : ℕ) (r : ℕ × Option ℕ)
      → in_segment p s ≡ false
      → Outcome (suc j) l start after r
      → Outcome j (s ∷ l) start after r
  Outcome-skip j s l start after (start', none) c o = o
  Outcome-skip j s l start after (start', some a) c (al, sides, kept) = (
    al,
    (λ e. absurd (cc (e, c)), sides),
    elim kept [ inl same ↦ inl same | inr (le, below) ↦ inr (omega arith, λ b h. below b h.1) ],
  )

  Outcome-stay :
      (j : ℕ) (s : Shdr) (l : List Shdr) (start after : ℕ) (r : ℕ × Option ℕ)
      → AllFrom p (s.sh_addr + s.sh_size) l
      → in_segment p s ≡ true
      → start + size ≤ s.sh_addr
      → after < j
      → Outcome (suc j) l start after r
      → Outcome j (s ∷ l) start after r
  Outcome-stay j s l start after (start', none) from c le lt o = o
  Outcome-stay j s l start after (start', some a) from c le lt (al, sides, kept) = elim kept [
    | inl (e, f) ↦ (al, (λ h. (λ g. absurd (omega arith), λ g. omega arith), sides), inl (e, f))
    | inr (ge, below) ↦
        let end_le = below (s.sh_addr + s.sh_size) from in
        (
          al,
          (λ h. (λ g. end_le, λ g. absurd (omega arith)), sides),
          inr (omega arith, λ b h. below b h.1),
        )
  ]

  Outcome-move :
      (j : ℕ) (s : Shdr) (l : List Shdr) (start after start1 : ℕ) (r : ℕ × Option ℕ)
      → AllFrom p (s.sh_addr + s.sh_size) l
      → in_segment p s ≡ true
      → s.sh_addr + s.sh_size ≤ start1
      → Outcome (suc j) l start1 j r
      → Outcome j (s ∷ l) start after r
  Outcome-move j s l start after start1 (start', none) from c le o = o
  Outcome-move j s l start after start1 (start', some a) from c le (al, sides, kept) =
      let end_le : s.sh_addr + s.sh_size ≤ start' = elim kept [
        | inl (e, f) ↦ omega arith
        | inr (ge, below) ↦ below (s.sh_addr + s.sh_size) from
      ] in
      let ge : j ≤ a = elim kept [ inl (e, f) ↦ omega arith | inr (ge, below) ↦ omega arith ] in
      (
        al,
        (λ h. (λ g. end_le, λ g. absurd (omega arith)), sides),
        inr (ge, λ b h. let le_b = h.0 c in omega arith),
      )

  -- The address of a section and its size as numbers.
  end-exact :
      (s : Shdr)
      → s.sh_addr + s.sh_size + size + 2 ^ k < 2 ^ 64
      → section_end s ≡ s.sh_addr + s.sh_size
  end-exact s h = omega arith

  scan-Outcome :
      (l : List Shdr) (j start after : ℕ)
      → k ≤ 63
      → after < j
      → InOrder l
      → IsPlace start
      → Outcome j l start after (scan p (2 ^ k) size l j (start, some after))
  unfolding scan
  scan-Outcome [] j start after hk lt order al = (al, tt, inl (refl, refl))
  scan-Outcome (s ∷ l) j start after hk lt order al = elim (Bool-cases (in_segment p s)) [
    | inr c ↦ rw c (
        Outcome-skip j s l start after _ c
          (scan-Outcome l (suc j) start after hk (omega arith) order.1 al))
    | inl c ↦
        let fits = al.2 in
        let low = (order.0 c).0.0 in
        let room = (order.0 c).0.1 in
        let from = (order.0 c).1 in
        elim (Bool-cases (ltb s.sh_addr (add64 start size))) [
          | inr d ↦
              rw (c, d)
                (Outcome-stay j s l start after _ from c (ground arith) lt
                  (scan-Outcome l (suc j) start after hk (omega arith) order.1 al))
          | inl d ↦
              let e = end-exact s room in
              let parts = round_up-parts k (section_end s) hk (omega arith) in
              rw (c, d)
                (Outcome-move j s l start after _ _ from c (omega arith) (
                  scan-Outcome l (suc j) (round_up (section_end s) (2 ^ k)) j hk (omega arith)
                    order.1 (parts.0, omega (arith, parts.1), omega (arith, parts.2))))
        ]
  ]

  -- What the loop finds, from no section on.
  abbrev pub Splits : ℕ → List Shdr → ℕ × Option ℕ → Type 0
  Splits j l (start', none) = Unit
  Splits j l (start', some a) = IsPlace start' × Sides p size start' (suc a) j l

  Outcome-Splits :
      (j : ℕ) (l : List Shdr) (start after : ℕ) (r : ℕ × Option ℕ)
      → Outcome j l start after r
      → Splits j l r
  Outcome-Splits j l start after (start', none) o = tt
  Outcome-Splits j l start after (start', some a) o = (o.0, o.1)

  Splits-skip :
      (j : ℕ) (s : Shdr) (l : List Shdr) (r : ℕ × Option ℕ)
      → in_segment p s ≡ false
      → Splits (suc j) l r
      → Splits j (s ∷ l) r
  Splits-skip j s l (start', none) c o = tt
  Splits-skip j s l (start', some a) c (al, sides) = (al, (λ e. absurd (cc (e, c)), sides))

  pub scan-Splits :
      (l : List Shdr) (j start : ℕ)
      → k ≤ 63
      → 0 < j
      → InOrder l
      → IsPlace start
      → Splits j l (scan p (2 ^ k) size l j (start, none))
  unfolding scan
  scan-Splits [] j start hk pos order al = tt
  scan-Splits (s ∷ l) j start hk pos order al = elim (Bool-cases (in_segment p s)) [
    | inr c ↦ rw c (Splits-skip j s l _ c (scan-Splits l (suc j) start hk (omega arith) order.1 al))
    | inl c ↦
        let from_before =
          Outcome-Splits j (s ∷ l) start (j - 1) _
            (scan-Outcome (s ∷ l) j start (j - 1) hk (omega arith) order al) in
        rw c (
          subst
            (λ b. Splits j (s ∷ l) (
              scan p (2 ^ k) size l (suc j) (
                if b
                then scan_one (2 ^ k) size s j (start, some (j - 1))
                else (start, some (j - 1)))))
            c from_before)
  ]
