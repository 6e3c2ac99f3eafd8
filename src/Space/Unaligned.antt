-- ===== src/Space/Unaligned.antt =====
-- adjust_nonalloc of src/dso.c on sections whose sh_addralign is 0.
use prelink_cross.Base.{
  ℕ, suc, ◌^◌, ◌<◌, ◌≡◌, ◌⊎◌, inl, inr, refl, ap, ap₂, ◌∙◌, true, List, [], ◌∷◌, drop, All, bit_and,
  add64, sub64, not64, leb, ◌==◌, if◌then◌else◌, Bool-cases, arith,
}
use prelink_cross.Base.Bits.{bit_and-zero, zero-bit_and, bit_and_le, bit_and_low}
use prelink_cross.Dso.{Shdr}
use prelink_cross.Space.{
  Image, round_up, is_behind, padded, aligned_adjust, table_adjust, move_behind, from_1,
  adjust_nonalloc,
}

-- Some section that has to move has the alignment 0, with `i` the number of the first of the list.
abbrev pub AnyUnaligned : ℕ → ℕ → ℕ → List Shdr → Type 0
AnyUnaligned first start i [] = ⊥
AnyUnaligned first start i (s ∷ l) =
    ((is_behind first start i s ≡ true) × (s.sh_addralign ≡ 0)) ⊎ AnyUnaligned first start (suc i) l

padded-zero : (align : ℕ) → padded 0 align ≡ 0
padded-zero align = rw (zero-bit_and (sub64 align 1)) refl

padded-unaligned : (x : ℕ) → x < 2 ^ 64 → padded x 0 ≡ 0
unfolding round_up
padded-unaligned x lt = elim (Bool-cases (bit_and x 18446744073709551615 == 0)) [
  | inl c ↦ rw c (let e = bit_and_low 64 x in ground arith)
  | inr c ↦ rw c (bit_and-zero _)
]

padded-lt : (x align : ℕ) → x < 2 ^ 64 → padded x align < 2 ^ 64
unfolding round_up
padded-lt x align lt = elim (Bool-cases (bit_and x (sub64 align 1) == 0)) [
  | inl c ↦ rw c lt
  | inr c ↦ rw c (omega (arith, bit_and_le (sub64 (add64 x align) 1) (not64 (sub64 align 1))))
]

module _ (first start : ℕ) where
  aligned_adjust-zero : (l : List Shdr) (i : ℕ) → aligned_adjust first start i l 0 ≡ 0
  unfolding aligned_adjust
  aligned_adjust-zero [] i = refl
  aligned_adjust-zero (s ∷ l) i = elim (Bool-cases (is_behind first start i s)) [
    | inl c ↦ rw (c, padded-zero s.sh_addralign) (aligned_adjust-zero l (suc i))
    | inr c ↦ rw c (aligned_adjust-zero l (suc i))
  ]

  aligned_adjust-unaligned :
      (l : List Shdr) (i x : ℕ)
      → x < 2 ^ 64
      → AnyUnaligned first start i l
      → aligned_adjust first start i l x ≡ 0
  unfolding aligned_adjust
  aligned_adjust-unaligned [] i x lt h = absurd h
  aligned_adjust-unaligned (s ∷ l) i x lt (inl (c, z)) =
      rw (c, z, padded-unaligned x lt) (aligned_adjust-zero l (suc i))
  aligned_adjust-unaligned (s ∷ l) i x lt (inr h) = elim (Bool-cases (is_behind first start i s)) [
    | inl c ↦ rw c (aligned_adjust-unaligned l (suc i) _ (padded-lt x s.sh_addralign lt) h)
    | inr c ↦ rw c (aligned_adjust-unaligned l (suc i) x lt h)
  ]

  move_behind-zero :
      (l : List Shdr) (i : ℕ)
      → All (λ s. s.sh_offset < 2 ^ 64) l
      → move_behind first start 0 i l ≡ l
  unfolding move_behind
  move_behind-zero [] i h = refl
  move_behind-zero (s ∷ l) i (lt, h) =
      let e : add64 s.sh_offset 0 ≡ s.sh_offset = omega arith in
      let on = move_behind-zero l (suc i) h in
      elim (Bool-cases (is_behind first start i s)) [
        | inl c ↦ rw c (ap₂ (λ (o : ℕ) t. record s { sh_offset = o } ∷ t) e on)
        | inr c ↦ rw c (ap (λ t. s ∷ t) on)
      ]

  move_sections-zero :
      (l : List Shdr)
      → All (λ s. s.sh_offset < 2 ^ 64) (drop 1 l)
      → from_1 (move_behind first start 0 1) l ≡ l
  move_sections-zero [] h = refl
  move_sections-zero (s ∷ l) h = ap (λ t. s ∷ t) (move_behind-zero l 1 h)

  move_table-zero : (e : ℕ) → e < 2 ^ 64 → (if leb start e then add64 e 0 else e) ≡ e
  move_table-zero e lt = elim (Bool-cases (leb start e)) [
    | inl c ↦ rw c (omega arith)
    | inr c ↦ rw c refl
  ]

  table_adjust-zero : (im : Image) → table_adjust im start 0 ≡ 0
  unfolding table_adjust
  table_adjust-zero im = elim (Bool-cases (leb start im.e_shoff)) [
    | inl c ↦ rw c (padded-zero (if im.elf64 then 8 else 4))
    | inr c ↦ rw c refl
  ]

  -- Let a section that adjust_nonalloc has to move have 0 as its alignment, which the ELF standard
  -- allows for no constraint. Then nothing is moved, whatever `adjust` is.
  pub adjust_nonalloc-unaligned :
      (im : Image) (adjust : ℕ)
      → adjust < 2 ^ 64
      → im.e_shoff < 2 ^ 64
      → All (λ s. s.sh_offset < 2 ^ 64) (drop 1 im.shdr)
      → AnyUnaligned first start 1 (drop 1 im.shdr)
      → adjust_nonalloc im first start adjust ≡ im
  unfolding adjust_nonalloc
  adjust_nonalloc-unaligned im adjust lt small offsets h =
      let none_left =
        ap (λ by. table_adjust im start by)
          (aligned_adjust-unaligned (drop 1 im.shdr) 1 adjust lt h)
        ∙ table_adjust-zero im in
      ap
        (λ by. record im {
          e_shoff = if leb start im.e_shoff then add64 im.e_shoff by else im.e_shoff;
          shdr = from_1 (move_behind first start by 1) im.shdr;
        })
        none_left
      ∙ ap₂ (λ e l. record im { e_shoff = e; shdr = l }) (move_table-zero im.e_shoff small)
          (move_sections-zero im.shdr offsets)
