-- ===== src/Dwarf2/ListEnds.antt =====
-- The walks over .debug_ranges and .debug_loc end, and change no byte before their offset.
use prelink_cross.Base.{
  ℕ, zero, suc, ◌+◌, ◌*◌, ◌≤◌, ◌≡◌, Bool, true, false, ◌&&◌, Option, none, some, List, arith, ltb,
  leb, ◌==◌, if◌then◌else◌, Bool-cases, Option-cases, inl, inr, length, drop,
}
use prelink_cross.Bytes.{w16, buf_read_une}
use prelink_cross.Dwarf2.{Debug, CuData, Walk, ok, ptr_size, write_ptr}
use prelink_cross.Dwarf2.Lists.{
  is_base, read_pair, ranges_entry, loc_entry, loc_expression, adjusted_base, write_base, shift_low,
  shift_high, shift_range, ranges_loop, adjust_dwarf2_ranges, loc_loop, adjust_dwarf2_loc,
}
use prelink_cross.Dwarf2.Keeps.{
  Keeps-self, Keeps-trans, Ends, IfKeeps, write_ptr-IfKeeps, Ends-then, Ends-of_option,
}
use prelink_cross.Dwarf2.Ends.{adjust_location_list-Ends}

IfKeeps-later :
    (p q : ℕ) (buf : List ℕ) (o : Option (List ℕ)) → p ≤ q → IfKeeps q buf o → IfKeeps p buf o
unfolding IfKeeps
IfKeeps-later p q buf none h k = tt
IfKeeps-later p q buf (some b) h k = (k.0, λ i lt. k.1 i (omega arith))

-- Two changes in a row.
IfKeeps-both :
    (p : ℕ) (buf : List ℕ) (o : Option (List ℕ)) (f : List ℕ → Option (List ℕ))
    → IfKeeps p buf o
    → ((b : List ℕ) → IfKeeps p b (f b))
    → IfKeeps p buf (elim o [ none ↦ none | some b ↦ f b ])
unfolding IfKeeps
IfKeeps-both p buf none f h g = tt
IfKeeps-both p buf (some b) f h g = over (f b) (g b)
  where
    over : (o : Option (List ℕ)) → IfKeeps p b o → IfKeeps p buf o
    over none k = tt
    over (some c) k = Keeps-trans p p buf b c (omega arith) h k

pub IfKeeps-if :
    (p : ℕ) (buf : List ℕ) (t : Bool) (o : Option (List ℕ))
    → IfKeeps p buf o
    → IfKeeps p buf (if t then o else some buf)
unfolding IfKeeps
IfKeeps-if p buf true o h = h
IfKeeps-if p buf false o h = Keeps-self p buf

module _ (d : Debug) (start adjust : ℕ) where
  second_word :
      (buf : List ℕ) (ptr val : ℕ) → IfKeeps ptr buf (write_ptr d buf (ptr + ptr_size d) val)
  second_word buf ptr val =
      IfKeeps-later ptr (ptr + ptr_size d) buf _ (omega arith) (write_ptr-IfKeeps d buf _ val)

  write_base-IfKeeps :
      (buf : List ℕ) (ptr base : ℕ) → IfKeeps ptr buf (write_base d start adjust buf ptr base)
  write_base-IfKeeps buf ptr base = IfKeeps-if ptr buf _ _ (second_word buf ptr _)

  shift_low-IfKeeps :
      (buf : List ℕ) (ptr base low high : ℕ)
      → IfKeeps ptr buf (shift_low d start adjust buf ptr base low high)
  shift_low-IfKeeps buf ptr base low high = IfKeeps-if ptr buf _ _ (
      IfKeeps-both ptr buf _ _ (write_ptr-IfKeeps d buf ptr _)
        (λ b. IfKeeps-if ptr b (high == low) _ (second_word b ptr _)))

  shift_high-IfKeeps :
      (buf : List ℕ) (ptr base low high : ℕ)
      → IfKeeps ptr buf (shift_high d start adjust buf ptr base low high)
  shift_high-IfKeeps buf ptr base low high = IfKeeps-if ptr buf _ _ (second_word buf ptr _)

  shift_range-IfKeeps :
      (buf : List ℕ) (ptr base low high : ℕ)
      → IfKeeps ptr buf (shift_range d start adjust buf ptr base low high)
  unfolding shift_range IfKeeps
  shift_range-IfKeeps buf ptr base low high =
      elim (Bool-cases (adjusted_base d start adjust base)) [
        | inl p ↦ rw (shift_range, p) (Keeps-self ptr buf)
        | inr p ↦
            rw (shift_range, p)
              (IfKeeps-both ptr buf _ _ (shift_low-IfKeeps buf ptr base low high)
                (λ b. shift_high-IfKeeps b ptr base low high))
      ]

  pub one_byte : 1 ≤ ptr_size d
  one_byte = elim (Bool-cases d.wide) [ inl e ↦ rw e (omega arith) | inr e ↦ rw e (omega arith) ]

  -- One entry, for loops that end from behind it on.
  ranges_entry-Ends :
      (fuel : ℕ) (walk : List ℕ → ℕ → ℕ → Walk (List ℕ))
      → ((buf : List ℕ) (ptr base : ℕ) → length buf ≤ ptr + fuel → Ends ptr buf (walk buf ptr base))
      → (buf : List ℕ) (ptr base low high : ℕ) → length buf ≤ ptr + suc fuel
      → Ends ptr buf (ranges_entry d start adjust walk buf ptr base low high)
  unfolding ranges_entry
  ranges_entry-Ends fuel walk ends buf ptr base low high h = elim (Bool-cases (is_base d low)) [
    | inl b ↦
        rw (ranges_entry, b)
          (Ends-then ptr ptr (ptr + 2 * ptr_size d) buf _ _ (omega arith) (omega arith)
            (Ends-of_option ptr buf _ (write_base-IfKeeps buf ptr high))
            (λ b' len. ends b' _ high (omega (arith, one_byte))))
    | inr b ↦
        rw (ranges_entry, b)
          (Ends-then ptr ptr (ptr + 2 * ptr_size d) buf _ _ (omega arith) (omega arith)
            (Ends-of_option ptr buf _ (shift_range-IfKeeps buf ptr base low high))
            (λ b' len. ends b' _ base (omega (arith, one_byte))))
  ]

  loc_expression-Ends :
      (cu : Option CuData) (fuel : ℕ) (walk : List ℕ → ℕ → Walk (List ℕ))
      → ((buf : List ℕ) (ptr : ℕ) → length buf ≤ ptr + fuel → Ends ptr buf (walk buf ptr))
      → (buf : List ℕ) (ptr : ℕ) → length buf ≤ ptr + fuel
      → Ends ptr buf (loc_expression d start adjust cu walk buf ptr)
  unfolding loc_expression
  loc_expression-Ends cu fuel walk ends buf ptr h =
      elim (Option-cases (buf_read_une d.dso.e_data w16 (drop ptr buf))) [
        | inl e ↦ rw (loc_expression, e) tt
        | inr (len, e) ↦ elim (Bool-cases (leb (ptr + 2 + len) (length buf))) [
          | inl p ↦
              rw (loc_expression, e, p)
                (Ends-then ptr (ptr + 2) (ptr + 2 + len) buf _ _ (omega arith) (omega arith)
                  (adjust_location_list-Ends d cu start adjust len buf _ _ (omega arith))
                  (λ b' same. ends b' _ (omega arith)))
          | inr p ↦ rw (loc_expression, e, p) tt
        ]
      ]

  loc_entry-Ends :
      (cu : Option CuData) (fuel : ℕ) (walk : List ℕ → ℕ → Walk (List ℕ))
      → ((buf : List ℕ) (ptr : ℕ) → length buf ≤ ptr + fuel → Ends ptr buf (walk buf ptr))
      → (buf : List ℕ) (ptr low high : ℕ) → length buf ≤ ptr + suc fuel
      → Ends ptr buf (loc_entry d start adjust cu walk buf ptr low high)
  unfolding loc_entry
  loc_entry-Ends cu fuel walk ends buf ptr low high h = elim (Bool-cases (is_base d low)) [
    | inl b ↦
        rw (loc_entry, b)
          (Ends-then ptr ptr (ptr + 2 * ptr_size d) buf _ _ (omega arith) (omega arith)
            (Ends-of_option ptr buf _ (write_base-IfKeeps buf ptr high))
            (λ b' len. ends b' _ (omega (arith, one_byte))))
    | inr b ↦
        rw (loc_entry, b)
          (Ends-then ptr ptr (ptr + 2 * ptr_size d) buf (ok buf)
            (λ b'. loc_expression d start adjust cu walk b' (ptr + 2 * ptr_size d)) (omega arith)
            (omega arith) (Keeps-self ptr buf)
            (λ b' len.
              loc_expression-Ends cu fuel walk ends b' (ptr + 2 * ptr_size d)
                (omega (arith, one_byte))))
  ]

  -- The fuel covers the bytes from `ptr` on.
  ranges_loop-Ends :
      (fuel : ℕ) (buf : List ℕ) (ptr base : ℕ)
      → length buf ≤ ptr + fuel
      → Ends ptr buf (ranges_loop d start adjust fuel buf ptr base)
  unfolding ranges_loop
  ranges_loop-Ends zero buf ptr base h =
      let p : ltb ptr (length buf) ≡ false = ground arith in rw p (Keeps-self ptr buf)
  ranges_loop-Ends (suc fuel) buf ptr base h = elim (Bool-cases (ltb ptr (length buf))) [
    | inr p ↦ rw (ranges_loop, p) (Keeps-self ptr buf)
    | inl p ↦ elim (Option-cases (read_pair d buf ptr)) [
      | inl e ↦ rw (ranges_loop, p, e) tt
      | inr ((low, high), e) ↦ elim (Bool-cases (low == 0 && high == 0)) [
        | inl z ↦ rw (ranges_loop, p, e, z) (Keeps-self ptr buf)
        | inr z ↦
            rw (ranges_loop, p, e, z)
              (ranges_entry-Ends fuel (ranges_loop d start adjust fuel)
                (λ b q c le. ranges_loop-Ends fuel b q c le) buf ptr base low high h)
      ]
    ]
  ]

  loc_loop-Ends :
      (cu : Option CuData) (fuel : ℕ) (buf : List ℕ) (ptr : ℕ)
      → length buf ≤ ptr + fuel
      → Ends ptr buf (loc_loop d start adjust cu fuel buf ptr)
  unfolding loc_loop
  loc_loop-Ends cu zero buf ptr h =
      let p : ltb ptr (length buf) ≡ false = ground arith in rw p (Keeps-self ptr buf)
  loc_loop-Ends cu (suc fuel) buf ptr h = elim (Bool-cases (ltb ptr (length buf))) [
    | inr p ↦ rw (loc_loop, p) (Keeps-self ptr buf)
    | inl p ↦ elim (Option-cases (read_pair d buf ptr)) [
      | inl e ↦ rw (loc_loop, p, e) tt
      | inr ((low, high), e) ↦ elim (Bool-cases (low == 0 && high == 0)) [
        | inl z ↦ rw (loc_loop, p, e, z) (Keeps-self ptr buf)
        | inr z ↦
            rw (loc_loop, p, e, z)
              (loc_entry-Ends cu fuel (loc_loop d start adjust cu fuel)
                (λ b q le. loc_loop-Ends cu fuel b q le) buf ptr low high h)
      ]
    ]
  ]

-- `adjust_dwarf2_ranges` ends on every section: where it returns 0, the section has its size, and
-- the bytes before the offset are as they were.
pub adjust_dwarf2_ranges-Ends :
    (d : Debug) (start adjust : ℕ) (buf : List ℕ) (offset base : ℕ)
    → Ends offset buf (adjust_dwarf2_ranges d start adjust (some buf) offset base)
unfolding adjust_dwarf2_ranges
adjust_dwarf2_ranges-Ends d start adjust buf offset base =
    elim (Bool-cases (leb (length buf) offset)) [
      | inl p ↦ rw (adjust_dwarf2_ranges, p) tt
      | inr p ↦
          rw (adjust_dwarf2_ranges, p)
            (ranges_loop-Ends d start adjust (length buf) buf offset base (omega arith))
    ]

-- `adjust_dwarf2_loc` and the walks over its expressions, which may nest, end on every section:
-- where it returns 0, the section has its size, and the bytes before the offset are as they were.
pub adjust_dwarf2_loc-Ends :
    (d : Debug) (start adjust : ℕ) (cu : Option CuData) (buf : List ℕ) (offset : ℕ)
    → Ends offset buf (adjust_dwarf2_loc d start adjust cu (some buf) offset)
unfolding adjust_dwarf2_loc
adjust_dwarf2_loc-Ends d start adjust cu buf offset = elim (Bool-cases (leb (length buf) offset)) [
  | inl p ↦ rw (adjust_dwarf2_loc, p) tt
  | inr p ↦
      rw (adjust_dwarf2_loc, p)
        (loc_loop-Ends d start adjust cu (length buf) buf offset (omega arith))
]
