-- ===== src/Dso/Segments.antt =====
-- The program headers under `adjust_dso`: what an insertion of bytes does to a segment, and that a
-- relocation of the whole object can be undone.
use prelink_cross.Base.{
  ℕ, ◌+◌, ◌^◌, ◌≤◌, ◌<◌, ◌≡◌, ◌≢◌, ◌||◌, none, some, List, inl, inr, [], ◌∷◌, arith, Bool-cases,
  Option-cases, leb, ltb, ◌==◌, if◌then◌else◌, All, add64, sub64, subst, sym,
}
use prelink_cross.Dso.{
  Phdr, pt_gnu_stack, addr_adjust, checked_phdr, shift_phdr, adjust_phdr, adjust_phdrs,
}

-- The ends of a segment in memory and in the file, and what is added to them.
abbrev pub mem_end : Phdr → ℕ
mem_end p = p.p_vaddr + p.p_memsz

abbrev pub file_end : Phdr → ℕ
file_end p = p.p_vaddr + p.p_filesz

abbrev pub end_shift : ℕ → ℕ → ℕ → ℕ → ℕ
end_shift start adjust first last = if leb start first || ltb start last then adjust else 0

-- An ordinary segment, whose ends do not wrap, also after the shift.
pub record IsSegment (p : Phdr) (adjust : ℕ) : Type 0 where
  pub not_stack : p.p_type ≢ pt_gnu_stack
  pub file_in_memory : p.p_filesz ≤ p.p_memsz
  pub fits : p.p_vaddr + p.p_memsz + adjust < 2 ^ 64

checked_phdr-eq : (p p' : Phdr) → checked_phdr p ≡ some p' → p' ≡ p
unfolding checked_phdr
checked_phdr-eq p p' e = ground arith

-- The segment still covers what it covered, and its file part lies within its memory part.
abbrev pub Covers : ℕ → ℕ → Phdr → Phdr → Type 0
Covers start adjust p p' =
    (p'.p_vaddr ≡ addr_adjust p.p_vaddr start adjust)
    × (mem_end p' ≡ mem_end p + end_shift start adjust p.p_vaddr (mem_end p))
    × (file_end p' ≡ file_end p + end_shift start adjust p.p_vaddr (file_end p))
    × (p'.p_filesz ≤ p'.p_memsz)

shift_phdr-Covers :
    (start adjust : ℕ) (p p' : Phdr)
    → 0 < start
    → IsSegment p adjust
    → shift_phdr start adjust p ≡ some p'
    → Covers start adjust p p'
unfolding shift_phdr addr_adjust
shift_phdr-Covers start adjust p p' pos seg e = ground arith

shift_phdr-none :
    (start adjust : ℕ) (p : Phdr)
    → 0 < start
    → IsSegment p adjust
    → shift_phdr start adjust p ≡ none
    → Covers start adjust p p
unfolding shift_phdr addr_adjust
shift_phdr-none start adjust p pos seg e = ground arith

-- When `adjust` bytes are put in at address `start`, not 0, a segment that `adjust_dso` does not
-- reject starts where its first address is moved to, and its end in memory and its end in the file
-- move by `adjust` exactly if the segment starts at `start` or later or has that end after it.
pub adjust_phdr-Covers :
    (start adjust : ℕ) (p p' : Phdr)
    → 0 < start
    → IsSegment p adjust
    → adjust_phdr start adjust p ≡ some p'
    → Covers start adjust p p'
unfolding adjust_phdr
adjust_phdr-Covers start adjust p p' pos seg e = elim (Option-cases (shift_phdr start adjust p)) [
  | inl none_left ↦
      let q : p ≡ p' = ground arith in
      subst (Covers start adjust p) q (shift_phdr-none start adjust p pos seg none_left)
  | inr (q, shifted) ↦
      let c : checked_phdr q ≡ some p' = ground arith in
      subst (Covers start adjust p) (sym (checked_phdr-eq q p' c))
        (shift_phdr-Covers start adjust p q pos seg shifted)
]

-- A header that the alignment test lets pass, and that stays below 2 ^ 64.
abbrev pub IsAligned : Phdr → Type 0
IsAligned p = (checked_phdr p ≡ some p) × (p.p_vaddr < 2 ^ 64) × (p.p_paddr < 2 ^ 64)

adjust_phdr-back :
    (adjust : ℕ) (p p' : Phdr)
    → IsAligned p
    → adjust < 2 ^ 64
    → adjust_phdr 0 adjust p ≡ some p'
    → adjust_phdr 0 (sub64 0 adjust) p' ≡ some p
unfolding adjust_phdr shift_phdr
adjust_phdr-back adjust p p' al lt e = elim (Bool-cases (p.p_type == pt_gnu_stack)) [
  | inl s ↦ ground arith
  | inr s ↦
      let q : Phdr = record p {
        p_vaddr = add64 p.p_vaddr adjust;
        p_paddr = add64 p.p_paddr adjust;
      } in
      let w : p' ≡ q = checked_phdr-eq q p' (rw s at e) in
      let v : add64 (add64 p.p_vaddr adjust) (sub64 0 adjust) ≡ p.p_vaddr = omega arith in
      let u : add64 (add64 p.p_paddr adjust) (sub64 0 adjust) ≡ p.p_paddr = omega arith in
      rw (w, s) (rw (v, u) al.0)
]

-- An object whose segments are aligned and that is relocated by any amount, without an error, is
-- relocated back, without an error, to the same program headers.
pub adjust_phdrs-back :
    (adjust : ℕ) (l l' : List Phdr)
    → All IsAligned l
    → adjust < 2 ^ 64
    → adjust_phdrs 0 adjust l ≡ some l'
    → adjust_phdrs 0 (sub64 0 adjust) l' ≡ some l
unfolding adjust_phdrs
adjust_phdrs-back adjust [] l' al lt e = let q : [] ≡ l' = cc e in rw (← q)
adjust_phdrs-back adjust (p ∷ l) l' al lt e = elim (Option-cases (adjust_phdr 0 adjust p)) [
  | inl f ↦ ground arith
  | inr (q, f) ↦ elim (Option-cases (adjust_phdrs 0 adjust l)) [
    | inl g ↦ ground arith
    | inr (m, g) ↦
        ground
          (arith, adjust_phdr-back adjust p q al.0 lt f, adjust_phdrs-back adjust l m al.1 lt g)
  ]
]
