-- ===== src/Dwarf2/TableEnds.antt =====
-- `adjust_dwarf2_aranges` ends, and changes no byte before their offset.
use prelink_cross.Base.{
  ℕ, zero, suc, ◌+◌, ◌*◌, ◌≤◌, ◌≡◌, false, ◌&&◌, ◌||◌, not, List, arith, ltb, ◌==◌, Bool-cases,
  Option-cases, inl, inr, length, get_elem?,
}
use prelink_cross.Dwarf2.{Debug, Walk, ok, failed, undefined_, stuck, ◌then_◌, ptr_size}
use prelink_cross.Dwarf2.Lists.{read_pair}
use prelink_cross.Dwarf2.Tables.{
  read_16, read_32, unit_header, at_end, aranges_pairs, aranges_unit, aranges_loop,
}
use prelink_cross.Dwarf2.Keeps.{
  Keeps, Keeps-self, Keeps-trans, Ends, write_ptr-IfKeeps, Ends-then, Ends-of_option,
}
use prelink_cross.Dwarf2.ListEnds.{IfKeeps-if, one_byte}

-- The end of a unit is behind its length, and not behind the section.
abbrev pub HeaderFits : ℕ → ℕ → Walk (ℕ × ℕ) → Type 0
HeaderFits n ptr (ok (endcu, version)) = (ptr + 4 ≤ endcu) × (endcu ≤ n)
HeaderFits n ptr failed = Unit
HeaderFits n ptr undefined_ = Unit
HeaderFits n ptr stuck = ⊥

pub unit_header-HeaderFits :
    (d : Debug) (buf : List ℕ) (ptr : ℕ) → HeaderFits (length buf) ptr (unit_header d buf ptr)
unfolding unit_header
unit_header-HeaderFits d buf ptr = elim (Option-cases (read_32 d buf ptr)) [
  | inl e ↦ rw (unit_header, e) tt
  | inr (len, e) ↦ elim (Bool-cases (len == 0xffffffff || ltb (length buf) (ptr + 4 + len))) [
    | inl p ↦ rw (unit_header, e, p) tt
    | inr p ↦ elim (Option-cases (read_16 d buf (ptr + 4))) [
      | inl g ↦ rw (unit_header, e, p, g) tt
      | inr (version, g) ↦
          let fits : ptr + 4 + len ≤ length buf = ground arith in
          rw (unit_header, e, p, g) (omega arith, fits)
    ]
  ]
]

-- A walk that also says where it stopped.
abbrev pub EndsBehind : ℕ → List ℕ → Walk (List ℕ × ℕ) → Type 0
EndsBehind ptr buf (ok (buf', ptr')) = Keeps ptr buf buf' × (ptr ≤ ptr')
EndsBehind ptr buf failed = Unit
EndsBehind ptr buf undefined_ = Unit
EndsBehind ptr buf stuck = ⊥

-- A walk that goes on from where another one stopped.
pub EndsBehind-then :
    (p q : ℕ) (buf : List ℕ) (w : Walk (List ℕ × ℕ)) (k : List ℕ × ℕ → Walk (List ℕ × ℕ))
    → p ≤ q
    → EndsBehind q buf w
    → ((b : List ℕ) (r : ℕ) → length b ≡ length buf → q ≤ r → EndsBehind r b (k (b, r)))
    → EndsBehind p buf (w then_ k)
EndsBehind-then p q buf (ok (b, r)) k h (e, g) f = over (k (b, r)) (f b r e.0 g)
  where
    over : (w : Walk (List ℕ × ℕ)) → EndsBehind r b w → EndsBehind p buf w
    over (ok (c, s)) (e', g') =
        (Keeps-trans p r buf b c (omega arith) (e.0, λ i lt. e.1 i (omega arith)) e', omega arith)
    over failed e' = tt
    over undefined_ e' = tt
    over stuck e' = e'
EndsBehind-then p q buf failed k h e f = tt
EndsBehind-then p q buf undefined_ k h e f = tt
EndsBehind-then p q buf stuck k h e f = absurd e

pub Ends-behind :
    (p q : ℕ) (buf : List ℕ) (w : Walk (List ℕ × ℕ)) (k : List ℕ × ℕ → Walk (List ℕ))
    → p ≤ q
    → EndsBehind q buf w
    → ((b : List ℕ) (r : ℕ) → length b ≡ length buf → q ≤ r → Ends r b (k (b, r)))
    → Ends p buf (w then_ k)
Ends-behind p q buf (ok (b, r)) k h (e, g) f =
    Ends-then p q r buf (ok b) (λ b'. k (b', r)) h (omega arith) e (λ b' len'. f b' r len' g)
Ends-behind p q buf failed k h e f = tt
Ends-behind p q buf undefined_ k h e f = tt
Ends-behind p q buf stuck k h e f = absurd e

-- A unit behind its header, whose length takes four bytes.
pub Ends-header :
    (p : ℕ) (buf : List ℕ) (w : Walk (ℕ × ℕ)) (k : ℕ × ℕ → Walk (List ℕ))
    → HeaderFits (length buf) p w
    → ((endcu version : ℕ) → p + 4 ≤ endcu → endcu ≤ length buf → Ends p buf (k (endcu, version)))
    → Ends p buf (w then_ k)
Ends-header p buf (ok (endcu, version)) k h f = f endcu version h.0 h.1
Ends-header p buf failed k h f = tt
Ends-header p buf undefined_ k h f = tt
Ends-header p buf stuck k h f = absurd h

at_end-Ends : (p : ℕ) (buf : List ℕ) (ptr endcu : ℕ) → Ends p buf (at_end buf ptr endcu)
at_end-Ends p buf ptr endcu = elim (Bool-cases (ptr == endcu)) [
  | inl e ↦ rw e (Keeps-self p buf)
  | inr e ↦ rw e tt
]

module _ (d : Debug) (start adjust : ℕ) where
  -- With fuel for the bytes up to the end of the unit, its pairs end.
  aranges_pairs-Ends :
      (fuel : ℕ) (buf : List ℕ) (ptr endcu : ℕ)
      → endcu ≤ ptr + fuel
      → Ends ptr buf (aranges_pairs d start adjust fuel buf ptr endcu)
  unfolding aranges_pairs
  aranges_pairs-Ends zero buf ptr endcu h =
      let p : ltb ptr endcu ≡ false = ground arith in rw p (at_end-Ends ptr buf ptr endcu)
  aranges_pairs-Ends (suc fuel) buf ptr endcu h = elim (Bool-cases (ltb ptr endcu)) [
    | inr p ↦ rw (aranges_pairs, p) (at_end-Ends ptr buf ptr endcu)
    | inl p ↦ elim (Option-cases (read_pair d buf ptr)) [
      | inl e ↦ rw (aranges_pairs, p, e) tt
      | inr ((addr, len), e) ↦ elim (Bool-cases (addr == 0 && len == 0)) [
        | inl z ↦ rw (aranges_pairs, p, e, z) (at_end-Ends ptr buf (ptr + 2 * ptr_size d) endcu)
        | inr z ↦
            rw (aranges_pairs, p, e, z)
              (Ends-then ptr ptr (ptr + 2 * ptr_size d) buf _ _ (omega arith) (omega arith)
                (Ends-of_option ptr buf _ (IfKeeps-if ptr buf _ _ (write_ptr-IfKeeps d buf ptr _)))
                (λ b len'.
                  aranges_pairs-Ends fuel b (ptr + 2 * ptr_size d) endcu
                    (omega (arith, one_byte d start adjust))))
      ]
    ]
  ]

  aranges_unit-Ends :
      (buf : List ℕ) (ptr endcu version : ℕ)
      → endcu ≤ length buf
      → Ends ptr buf (aranges_unit d start adjust buf ptr endcu version)
  unfolding aranges_unit
  aranges_unit-Ends buf ptr endcu version h = elim (Bool-cases (not (version == 2))) [
    | inl v ↦ rw (aranges_unit, v) tt
    | inr v ↦ elim (Option-cases (get_elem? buf (ptr + 10))) [
      | inl e ↦ rw (aranges_unit, v, e) tt
      | inr (size, e) ↦ elim (Bool-cases (not (size == ptr_size d))) [
        | inl s ↦ rw (aranges_unit, v, e, s) tt
        | inr s ↦ elim (Option-cases (get_elem? buf (ptr + 11))) [
          | inl g ↦ rw (aranges_unit, v, e, s, g) tt
          | inr (segment, g) ↦ elim (Bool-cases (not (segment == 0))) [
            | inl t ↦ rw (aranges_unit, v, e, s, g, t) tt
            | inr t ↦
                rw (aranges_unit, v, e, s, g, t)
                  (Ends-then ptr ptr (ptr + 16) buf (ok buf)
                    (λ b. aranges_pairs d start adjust (length buf) b (ptr + 16) endcu)
                    (omega arith) (omega arith) (Keeps-self ptr buf)
                    (λ b len'. aranges_pairs-Ends (length buf) b (ptr + 16) endcu (omega arith)))
          ]
        ]
      ]
    ]
  ]

  pub aranges_loop-Ends :
      (fuel : ℕ) (buf : List ℕ) (ptr : ℕ)
      → length buf ≤ ptr + fuel
      → Ends ptr buf (aranges_loop d start adjust fuel buf ptr)
  unfolding aranges_loop
  aranges_loop-Ends zero buf ptr h =
      let p : ltb ptr (length buf) ≡ false = ground arith in rw p (Keeps-self ptr buf)
  aranges_loop-Ends (suc fuel) buf ptr h = elim (Bool-cases (ltb ptr (length buf))) [
    | inr p ↦ rw (aranges_loop, p) (Keeps-self ptr buf)
    | inl p ↦
        rw (aranges_loop, p)
          (Ends-header ptr buf _ _ (unit_header-HeaderFits d buf ptr) (λ endcu version lo hi.
            Ends-then ptr ptr endcu buf _ _ (omega arith) (omega arith)
              (aranges_unit-Ends buf ptr endcu version hi)
              (λ b len'. aranges_loop-Ends fuel b endcu (omega arith))))
  ]
