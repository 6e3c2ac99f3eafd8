-- ===== src/Space/Shift.antt =====
-- The shift of adjust_nonalloc in src/dso.c.
use prelink_cross.Base.{
  ℕ, suc, ◌+◌, ◌*◌, ◌%◌, ◌^◌, ◌<◌, ◌≤◌, ◌≡◌, ◌⊎◌, inl, inr, refl, ap, sym, ◌∙◌, subst, Bool, true,
  false, List, [], ◌∷◌, drop, add64, leb, if◌then◌else◌, Bool-cases, arith,
}
use prelink_cross.Dso.{Shdr}
use prelink_cross.Space.{
  Image, is_behind, padded, aligned_adjust, table_adjust, move_behind, from_1, adjust_nonalloc,
}
use native.Mathlib.Nat.{mul-mod_left, pow-le-pow_right}
use prelink_cross.Space.Padding.{smaller_power, multiple_le, Pads, padded-Pads}

-- What holds of every section that has to move, with `i` the number of the first of the list.
abbrev pub AllBehind : ℕ → ℕ → (Shdr → Type 0) → ℕ → List Shdr → Type 0
AllBehind first start P i [] = Unit
AllBehind first start P i (s ∷ l) =
    (is_behind first start i s ≡ true → P s) × AllBehind first start P (suc i) l

-- A power of two up to `2 ^ m` as the alignment.
abbrev pub IsAligned : ℕ → Shdr → Type 0
IsAligned m s = (k : ℕ) × (k ≤ m) × (s.sh_addralign ≡ 2 ^ k)

abbrev pub Divides : ℕ → Shdr → Type 0
Divides by s = by % s.sh_addralign ≡ 0

module _ (first start m a : ℕ) where
  -- Of the multiples of `2 ^ m`, `a * 2 ^ m` is not below `x`.
  abbrev Adjusts : ℕ → ℕ → ℕ → List Shdr → Type 0
  Adjusts x r i l =
      (x ≤ r)
      × (r ≤ a * 2 ^ m)
      × ((j : ℕ) → x % 2 ^ j ≡ 0 → r % 2 ^ j ≡ 0)
      × AllBehind first start (Divides r) i l

  Pads-bound : (k x r : ℕ) → k ≤ m → Pads k x r → x ≤ a * 2 ^ m → r ≤ a * 2 ^ m
  Pads-bound k x r le h xa =
      multiple_le r (a * 2 ^ m) (2 ^ k) h.0
        (smaller_power k m (a * 2 ^ m) le (mul-mod_left a (2 ^ m))) (omega (arith, h.2))

  Adjusts-skip :
      (x r i : ℕ) (s : Shdr) (l : List Shdr)
      → is_behind first start i s ≡ false
      → Adjusts x r (suc i) l
      → Adjusts x r i (s ∷ l)
  Adjusts-skip x r i s l c on = (on.0, on.1, on.2, (λ e. absurd (cc (e, c)), on.3))

  Adjusts-pad :
      (k x y r i : ℕ) (s : Shdr) (l : List Shdr)
      → s.sh_addralign ≡ 2 ^ k
      → Pads k x y
      → Adjusts y r (suc i) l
      → Adjusts x r i (s ∷ l)
  Adjusts-pad k x y r i s l al pads on = (
    omega (arith, pads.1, on.0),
    on.1,
    λ j m. on.2 j (pads.3 j m),
    (λ e. ap (λ (t : ℕ). r % t) al ∙ on.2 k pads.0, on.3),
  )

  aligned_adjust-Adjusts :
      (l : List Shdr) (i x : ℕ)
      → m ≤ 63
      → a * 2 ^ m + 2 ^ m ≤ 2 ^ 64
      → x ≤ a * 2 ^ m
      → AllBehind first start (IsAligned m) i l
      → Adjusts x (aligned_adjust first start i l x) i l
  unfolding aligned_adjust
  aligned_adjust-Adjusts [] i x hm room xa h = (omega arith, xa, λ j e. e, tt)
  aligned_adjust-Adjusts (s ∷ l) i x hm room xa (hs, hl) =
      let goal = λ (b : Bool).
        Adjusts x (aligned_adjust first start (suc i) l (if b then padded x s.sh_addralign else x))
          i (s ∷ l) in
      elim (Bool-cases (is_behind first start i s)) [
        | inr c ↦
            subst goal (sym c)
              (Adjusts-skip x _ i s l c (aligned_adjust-Adjusts l (suc i) x hm room xa hl))
        | inl c ↦
            let (k, le, al) = hs c in
            let pw : 2 ^ k ≤ 2 ^ m = pow-le-pow_right (omega arith) le in
            let pads = padded-Pads k x (omega arith) (omega arith) in
            let pads' = subst (λ t. Pads k x (padded x t)) (sym al) pads in
            subst goal (sym c) (
              Adjusts-pad k x (padded x s.sh_addralign) _ i s l al pads' (
                aligned_adjust-Adjusts l (suc i) _ hm room
                  (Pads-bound k x (padded x s.sh_addralign) le pads' xa) hl))
      ]

-- Which sections of the second list are those of the first, moved or kept.
abbrev pub Shifted : ℕ → ℕ → ℕ → ℕ → List Shdr → List Shdr → Type 0
Shifted first start by i [] [] = Unit
Shifted first start by i [] (t ∷ new) = ⊥
Shifted first start by i (s ∷ old) [] = ⊥
Shifted first start by i (s ∷ old) (t ∷ new) =
    ((is_behind first start i s ≡ true → t ≡ record s { sh_offset = add64 s.sh_offset by })
      × (is_behind first start i s ≡ false → t ≡ s))
    × Shifted first start by (suc i) old new

move_behind-Shifted :
    (first start by i : ℕ) (l : List Shdr)
    → Shifted first start by i l (move_behind first start by i l)
unfolding move_behind
move_behind-Shifted first start by i [] = tt
move_behind-Shifted first start by i (s ∷ l) =
    let on = move_behind-Shifted first start by (suc i) l in ((λ c. rw c refl, λ c. rw c refl), on)

-- The headers of the sections but the first one, moved.
abbrev pub MovesBehind : ℕ → ℕ → ℕ → Image → Image → Type 0
MovesBehind first start by im im' =
    (by % (if im.elf64 then 8 else 4) ≡ 0 ⊎ im.e_shoff < start)
    × (im'.e_shoff ≡ (if leb start im.e_shoff then add64 im.e_shoff by else im.e_shoff))
    × AllBehind first start (Divides by) 1 (drop 1 im.shdr)
    × Shifted first start by 1 (drop 1 im.shdr) (drop 1 im'.shdr)

drop-from_1 :
    {A : Type 0} (f : List A → List A) (l : List A) → f [] ≡ [] → drop 1 (from_1 f l) ≡ f (drop 1 l)
drop-from_1 f [] e = sym e
drop-from_1 f (x ∷ l) e = refl

module _ (first start m a : ℕ) (im : Image) where
  Pads-Divides :
      (l : List Shdr) (i k r r' : ℕ)
      → AllBehind first start (IsAligned m) i l
      → Pads k r r'
      → AllBehind first start (Divides r) i l
      → AllBehind first start (Divides r') i l
  Pads-Divides [] i k r r' h pads d = tt
  Pads-Divides (s ∷ l) i k r r' h pads d = (
    λ c.
        let (j, le, al) = h.0 c in
        ap (λ (t : ℕ). r' % t) al ∙ pads.3 j (ap (λ (t : ℕ). r % t) (sym al) ∙ d.0 c),
    Pads-Divides l (suc i) k r r' h.1 pads d.1,
  )

  -- The exponent of the size of an address.
  word_exponent : 3 ≤ m → (b : Bool) → (k : ℕ) × (k ≤ m) × ((if b then 8 else 4) ≡ 2 ^ k)
  word_exponent h true = (3, h, refl)
  word_exponent h false = (2, omega arith, refl)

  IsTableAdjust : ℕ → ℕ → Type 0
  IsTableAdjust adjust by =
      Adjusts first start m a adjust by 1 (drop 1 im.shdr)
      × (by % (if im.elf64 then 8 else 4) ≡ 0 ⊎ im.e_shoff < start)

  table_adjust-IsTableAdjust :
      (adjust by : ℕ)
      → 3 ≤ m
      → m ≤ 63
      → a * 2 ^ m + 2 ^ m ≤ 2 ^ 64
      → AllBehind first start (IsAligned m) 1 (drop 1 im.shdr)
      → Adjusts first start m a adjust by 1 (drop 1 im.shdr)
      → IsTableAdjust adjust (table_adjust im start by)
  unfolding table_adjust IsTableAdjust
  table_adjust-IsTableAdjust adjust by h3 hm room h on = elim (Bool-cases (leb start im.e_shoff)) [
    | inr c ↦ rw c (on, inr (ground arith))
    | inl c ↦
        let (k, le, w) = word_exponent h3 im.elf64 in
        let pw : 2 ^ k ≤ 2 ^ m = pow-le-pow_right (omega arith) le in
        let pads =
          subst (λ t. Pads k by (padded by t)) (sym w)
            (padded-Pads k by (omega arith) (omega (arith, on.1))) in
        rw c (
          (
            omega (arith, on.0, pads.1),
            Pads-bound first start m a k by _ le pads on.1,
            λ j e. pads.3 j (on.2 j e),
            Pads-Divides (drop 1 im.shdr) 1 k by _ h pads on.3,
          ),
          inl (ap (λ (t : ℕ). padded by (if im.elf64 then 8 else 4) % t) w ∙ pads.0),
        )
  ]

  -- Let the alignments of the sections that are behind `start` be powers of two up to `2 ^ m`, with
  -- `3 ≤ m ≤ 63`, and `adjust` not above a multiple of `2 ^ m` that leaves room below `2 ^ 64`. Then
  -- adjust_nonalloc moves all these sections, and the table of the section headers if it is behind
  -- `start` too, by the same number of bytes, which is not less than `adjust`, not above that
  -- multiple, and a multiple of the alignment of each; it keeps the other sections.
  pub adjust_nonalloc-MovesBehind :
      (adjust : ℕ)
      → 3 ≤ m
      → m ≤ 63
      → a * 2 ^ m + 2 ^ m ≤ 2 ^ 64
      → adjust ≤ a * 2 ^ m
      → AllBehind first start (IsAligned m) 1 (drop 1 im.shdr)
      → (by : ℕ) × (adjust ≤ by)
        × (by ≤ a * 2 ^ m)
        × MovesBehind first start by im (adjust_nonalloc im first start adjust)
  unfolding adjust_nonalloc IsTableAdjust move_behind
  adjust_nonalloc-MovesBehind adjust h3 hm room xa h =
      let on = aligned_adjust-Adjusts first start m a (drop 1 im.shdr) 1 adjust hm room xa h in
      let by = table_adjust im start (aligned_adjust first start 1 (drop 1 im.shdr) adjust) in
      let (out, table) = table_adjust-IsTableAdjust adjust _ h3 hm room h on in
      (
        by,
        out.0,
        out.1,
        (
          table,
          refl,
          out.3,
          subst (λ l. Shifted first start by 1 (drop 1 im.shdr) l)
              (sym (drop-from_1 (move_behind first start by 1) im.shdr refl))
              (move_behind-Shifted first start by 1 (drop 1 im.shdr)),
        ),
      )
