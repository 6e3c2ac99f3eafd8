-- ===== src/Dwarf2/Ends.antt =====
-- `adjust_location_list` ends, and changes no byte before the place they start from.
use prelink_cross.Base.{
  ℕ, zero, suc, ◌+◌, ◌-◌, ◌≤◌, ◌<◌, ◌≡◌, subst, ◌⊎◌, false, Option, none, some, List, [], ◌∷◌,
  arith, ltb, leb, ◌==◌, if◌then◌else◌, Bool-cases, Option-cases, inl, inr, length, length-drop,
  get_elem?, drop, bit_and, bit_or, u32, ◌<<<◌,
}
use prelink_cross.Dwarf2.{
  Debug, CuData, Walk, ok, failed, undefined_, stuck, ◌then_◌, of_option, ptr_size, read_ptr, moves,
  uint_max, uleb_loop, read_uleb128,
}
use prelink_cross.Dwarf2.Expressions.{
  Operand, address, bytes, numbers, call_ref, implicit_value, implicit_pointer, entry_value,
  const_type, deref_type, unknown, operand_of, uleb_at, skip_numbers, adjust_address, skip_operand,
  adjust_operand, adjust_location_list,
}
use prelink_cross.Dwarf2.Keeps.{
  Keeps-self, Ends, IfKeeps, write_ptr-IfKeeps, Ends-then, Ends-of_option,
}

pub adjust_address-IfKeeps :
    (d : Debug) (start adjust : ℕ) (buf : List ℕ) (ptr : ℕ)
    → IfKeeps ptr buf (adjust_address d start adjust buf ptr)
unfolding adjust_address IfKeeps
adjust_address-IfKeeps d start adjust buf ptr = elim (Option-cases (read_ptr d buf ptr)) [
  | inl e ↦ rw (adjust_address, e) tt
  | inr (addr, e) ↦ elim (Bool-cases (moves d start addr)) [
    | inl p ↦ rw (adjust_address, e, p) (write_ptr-IfKeeps d buf ptr _)
    | inr p ↦ rw (adjust_address, e, p) (Keeps-self ptr buf)
  ]
]

-- A number takes a byte at least.
IfShorter : ℕ → Option (ℕ × ℕ × List ℕ) → Type 0
IfShorter n none = Unit
IfShorter n (some (v, shift, rest)) = length rest < n

IfShorter-wider : (n m : ℕ) (o : Option (ℕ × ℕ × List ℕ)) → n ≤ m → IfShorter n o → IfShorter m o
unfolding IfShorter
IfShorter-wider n m none h s = tt
IfShorter-wider n m (some (v, shift, rest)) h s = omega arith

uleb_loop-IfShorter :
    (buf : List ℕ) (ret shift : ℕ) → IfShorter (length buf) (uleb_loop buf ret shift)
unfolding uleb_loop
uleb_loop-IfShorter [] ret shift = unfold IfShorter in tt
uleb_loop-IfShorter (c ∷ r) ret shift =
    let more = uleb_loop-IfShorter r (u32 (bit_or ret (bit_and c 0x7f <<< shift))) (shift + 7) in
    elim (Bool-cases (bit_and c 0x80 == 0)) [
      | inl p ↦ rw (uleb_loop, p) (unfold IfShorter in omega arith)
      | inr p ↦ rw (uleb_loop, p) (IfShorter-wider _ _ _ (omega arith) more)
    ]

-- A number that is read ends behind its start.
pub uleb_at_cases :
    (buf : List ℕ) (ptr : ℕ)
    → (uleb_at buf ptr ≡ none)
      ⊎ ((v : ℕ) × (ptr' : ℕ) × (uleb_at buf ptr ≡ some (v, ptr')) × (ptr < ptr'))
unfolding uleb_at read_uleb128
uleb_at_cases buf ptr = elim (Option-cases (uleb_loop (drop ptr buf) 0 0)) [
  | inl e ↦ inl (ground (arith, e))
  | inr ((v, shift, rest), e) ↦
      let h : length rest < length (drop ptr buf) =
        unfold IfShorter in
        subst (IfShorter (length (drop ptr buf))) e (uleb_loop-IfShorter (drop ptr buf) 0 0) in
      inr (
        if leb 35 shift then uint_max else v,
        length buf - length rest,
        ground (arith, e),
        omega (arith, length-drop ptr buf),
      )
]

-- The offset behind operands.
abbrev pub NoEarlier : ℕ → Walk ℕ → Type 0
NoEarlier ptr (ok ptr') = ptr ≤ ptr'
NoEarlier ptr failed = Unit
NoEarlier ptr undefined_ = Unit
NoEarlier ptr stuck = ⊥

NoEarlier-later : (p q : ℕ) (w : Walk ℕ) → p ≤ q → NoEarlier q w → NoEarlier p w
NoEarlier-later p q (ok ptr') h n = omega arith
NoEarlier-later p q failed h n = tt
NoEarlier-later p q undefined_ h n = tt
NoEarlier-later p q stuck h n = n

pub skip_numbers-NoEarlier :
    (n : ℕ) (buf : List ℕ) (ptr : ℕ) → NoEarlier ptr (of_option (skip_numbers n buf ptr))
unfolding skip_numbers
skip_numbers-NoEarlier zero buf ptr = omega arith
skip_numbers-NoEarlier (suc n) buf ptr = elim (uleb_at_cases buf ptr) [
  | inl e ↦ rw (NoEarlier, of_option, skip_numbers, e) tt
  | inr (v, ptr', e, lt) ↦
      rw (NoEarlier, of_option, skip_numbers, e)
        (NoEarlier-later ptr ptr' _ (omega arith) (skip_numbers-NoEarlier n buf ptr'))
]

skip_operand-NoEarlier :
    (d : Debug) (cu : Option CuData) (o : Operand) (buf : List ℕ) (ptr : ℕ)
    → NoEarlier ptr (skip_operand d cu o buf ptr)
unfolding skip_operand
skip_operand-NoEarlier d cu (bytes n) buf ptr = omega arith
skip_operand-NoEarlier d cu (numbers n) buf ptr = skip_numbers-NoEarlier n buf ptr
skip_operand-NoEarlier d none call_ref buf ptr = tt
skip_operand-NoEarlier d (some cu) call_ref buf ptr = omega arith
skip_operand-NoEarlier d cu implicit_value buf ptr = elim (uleb_at_cases buf ptr) [
  | inl e ↦ rw (NoEarlier, skip_operand, e) tt
  | inr (v, ptr', e, lt) ↦ rw (NoEarlier, skip_operand, e) (omega arith)
]
skip_operand-NoEarlier d none implicit_pointer buf ptr = tt
skip_operand-NoEarlier d (some cu) implicit_pointer buf ptr =
    NoEarlier-later ptr _ _ (omega arith) (skip_numbers-NoEarlier 1 buf _)
skip_operand-NoEarlier d cu const_type buf ptr = elim (uleb_at_cases buf ptr) [
  | inl e ↦ rw (NoEarlier, skip_operand, e) tt
  | inr (v, ptr', e, lt) ↦ elim (Option-cases (get_elem? buf ptr')) [
    | inl g ↦ rw (NoEarlier, skip_operand, e, g) tt
    | inr (n, g) ↦ rw (NoEarlier, skip_operand, e, g) (omega arith)
  ]
]
skip_operand-NoEarlier d cu deref_type buf ptr =
    NoEarlier-later ptr _ _ (omega arith) (skip_numbers-NoEarlier 1 buf _)
skip_operand-NoEarlier d cu address buf ptr = tt
skip_operand-NoEarlier d cu entry_value buf ptr = tt
skip_operand-NoEarlier d cu unknown buf ptr = tt

module _ (d : Debug) (cu : Option CuData) (start adjust : ℕ) where
  -- One operation, for a walk that ends from behind its opcode on.
  module _ (fuel : ℕ) (walk : List ℕ → ℕ → ℕ → Walk (List ℕ))
      (ends : (buf : List ℕ) (p end : ℕ) → end ≤ p + fuel → Ends p buf (walk buf p end)) where
    skip_Ends :
        (w : Walk ℕ) (buf : List ℕ) (ptr end : ℕ)
        → end ≤ ptr + fuel
        → NoEarlier ptr w
        → Ends ptr buf (w then_ (λ ptr'. walk buf ptr' end))
    skip_Ends (ok ptr') buf ptr end h n =
        Ends-then ptr ptr ptr' buf (ok buf) (λ b. walk b ptr' end) (omega arith) n
          (Keeps-self ptr buf) (λ b len'. ends b ptr' end (omega arith))
    skip_Ends failed buf ptr end h n = tt
    skip_Ends undefined_ buf ptr end h n = tt
    skip_Ends stuck buf ptr end h n = n

    adjust_operand-Ends :
        (o : Operand) (buf : List ℕ) (ptr end : ℕ)
        → end ≤ ptr + fuel
        → Ends ptr buf (adjust_operand d cu start adjust walk o buf ptr end)
    unfolding adjust_operand
    adjust_operand-Ends address buf ptr end h =
        Ends-then ptr ptr (ptr + ptr_size d) buf _ _ (omega arith) (omega arith)
          (Ends-of_option ptr buf _ (adjust_address-IfKeeps d start adjust buf ptr))
          (λ b len'. ends b (ptr + ptr_size d) end (omega arith))
    adjust_operand-Ends entry_value buf ptr end h = elim (uleb_at_cases buf ptr) [
      | inl e ↦ rw (adjust_operand, e) tt
      | inr (len, ptr', e, lt) ↦ elim (Bool-cases (ltb end (ptr' + len))) [
        | inl p ↦ rw (adjust_operand, e, p) tt
        | inr p ↦
            let fits : ptr' + len ≤ end = ground arith in
            rw (adjust_operand, e, p)
              (Ends-then ptr ptr' (ptr' + len) buf _ _ (omega arith) (omega arith)
                (ends buf ptr' (ptr' + len) (omega arith))
                (λ b len'. ends b (ptr' + len) end (omega arith)))
      ]
    ]
    adjust_operand-Ends o buf ptr end h =
        skip_Ends (skip_operand d cu o buf ptr) buf ptr end h
          (skip_operand-NoEarlier d cu o buf ptr)

-- With fuel for the bytes up to `end`, the walk ends.
pub adjust_location_list-Ends :
    (d : Debug) (cu : Option CuData) (start adjust fuel : ℕ) (buf : List ℕ) (ptr end : ℕ)
    → end ≤ ptr + fuel
    → Ends ptr buf (adjust_location_list d cu start adjust fuel buf ptr end)
unfolding adjust_location_list
adjust_location_list-Ends d cu start adjust zero buf ptr end h =
    let p : ltb ptr end ≡ false = ground arith in rw p (Keeps-self ptr buf)
adjust_location_list-Ends d cu start adjust (suc fuel) buf ptr end h =
    elim (Bool-cases (ltb ptr end)) [
      | inl p ↦ elim (Option-cases (get_elem? buf ptr)) [
        | inl e ↦ rw (adjust_location_list, p, e) tt
        | inr (op, e) ↦
            rw (adjust_location_list, p, e)
              (Ends-then ptr ptr (ptr + 1) buf (ok buf) _ (omega arith) (omega arith)
                (Keeps-self ptr buf)
                (λ b len'.
                  adjust_operand-Ends d cu start adjust fuel
                    (adjust_location_list d cu start adjust fuel)
                    (λ b' p' end' le.
                      adjust_location_list-Ends d cu start adjust fuel b' p' end' le)
                    (operand_of op) b (ptr + 1) end (omega arith)))
      ]
      | inr p ↦ rw (adjust_location_list, p) (Keeps-self ptr buf)
    ]
