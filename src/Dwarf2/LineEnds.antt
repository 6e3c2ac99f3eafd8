-- ===== src/Dwarf2/LineEnds.antt =====
-- `adjust_dwarf2_line` ends too, whatever the operations of its programs are.
use prelink_cross.Base.{
  ℕ, zero, suc, ◌+◌, ◌≤◌, ◌<◌, ◌≡◌, false, ◌||◌, not, Option, none, some, List, arith, ltb, leb,
  ◌==◌, if◌then◌else◌, Bool-cases, Option-cases, inl, inr, length, get_elem?,
}
use prelink_cross.Dwarf2.{
  Debug, Walk, ok, failed, undefined_, stuck, ◌then_◌, of_option, ptr_size, uint_max,
}
use prelink_cross.Dwarf2.Tables.{
  read_32, adjust_dwarf2_aranges, extended_op, line_op, line_program, line_unit, line_loop,
  adjust_dwarf2_line,
}
use prelink_cross.Dwarf2.Keeps.{Keeps-self, Ends, IfKeeps}
use prelink_cross.Dwarf2.Ends.{
  NoEarlier, skip_numbers-NoEarlier, uleb_at_cases, adjust_address-IfKeeps,
}
use prelink_cross.Dwarf2.TableEnds.{
  EndsBehind, unit_header-HeaderFits, EndsBehind-then, Ends-behind, Ends-header, aranges_loop-Ends,
}

module _ (d : Debug) (start adjust : ℕ) where
  extended_op-EndsBehind :
      (buf : List ℕ) (ptr : ℕ) → EndsBehind ptr buf (extended_op d start adjust buf ptr)
  unfolding extended_op IfKeeps
  extended_op-EndsBehind buf ptr = elim (uleb_at_cases buf ptr) [
    | inl e ↦ rw (extended_op, e) tt
    | inr (len, ptr1, e, lt) ↦ elim (Bool-cases (len == uint_max)) [
      | inl u ↦ rw (extended_op, e, u) tt
      | inr u ↦ elim (Option-cases (get_elem? buf ptr1)) [
        | inl g ↦ rw (extended_op, e, u, g) tt
        | inr (op, g) ↦ elim (Bool-cases (op == 2)) [
          | inr t ↦ rw (extended_op, e, u, g, t) (Keeps-self ptr buf, omega arith)
          | inl t ↦
              rw (extended_op, e, u, g, t)
                (moved ptr1 lt _ (adjust_address-IfKeeps d start adjust buf (ptr1 + 1)))
        ]
      ]
    ]
  ]
    where
      moved :
          (q : ℕ)
          → ptr < q
          → (o : Option (List ℕ)) → IfKeeps (q + 1) buf o
          → EndsBehind ptr buf (of_option o then_ (λ b. ok (b, q + 1 + ptr_size d)))
      moved q lt none h = tt
      moved q lt (some b) h = ((h.0, λ i l. h.1 i (omega arith)), omega arith)

  line_op-EndsBehind :
      (base lengths op : ℕ) (buf : List ℕ) (ptr : ℕ)
      → EndsBehind ptr buf (line_op d start adjust base lengths op buf ptr)
  unfolding line_op
  line_op-EndsBehind base lengths op buf ptr = elim (Bool-cases (leb base op)) [
    | inl a ↦ rw (line_op, a) (Keeps-self ptr buf, omega arith)
    | inr a ↦ elim (Bool-cases (op == 0)) [
      | inl b ↦ rw (line_op, a, b) (extended_op-EndsBehind buf ptr)
      | inr b ↦ elim (Bool-cases (op == 9)) [
        | inl c ↦ rw (line_op, a, b, c) (Keeps-self ptr buf, omega arith)
        | inr c ↦ elim (Option-cases (get_elem? buf (lengths + op))) [
          | inl e ↦ rw (line_op, a, b, c, e) tt
          | inr (n, e) ↦ rw (line_op, a, b, c, e) (skipped _ (skip_numbers-NoEarlier n buf ptr))
        ]
      ]
    ]
  ]
    where
      skipped :
          (w : Walk ℕ) → NoEarlier ptr w → EndsBehind ptr buf (w then_ (λ ptr'. ok (buf, ptr')))
      skipped (ok ptr') h = (Keeps-self ptr buf, h)
      skipped failed h = tt
      skipped undefined_ h = tt
      skipped stuck h = h

  -- Every operation takes a byte, so that the fuel lasts to the end of the unit.
  line_program-EndsBehind :
      (fuel base lengths : ℕ) (buf : List ℕ) (ptr endcu : ℕ)
      → endcu ≤ ptr + fuel
      → EndsBehind ptr buf (line_program d start adjust fuel base lengths buf ptr endcu)
  unfolding line_program
  line_program-EndsBehind zero base lengths buf ptr endcu h =
      let p : ltb ptr endcu ≡ false = ground arith in rw p (Keeps-self ptr buf, omega arith)
  line_program-EndsBehind (suc fuel) base lengths buf ptr endcu h =
      elim (Bool-cases (ltb ptr endcu)) [
        | inr p ↦ rw (line_program, p) (Keeps-self ptr buf, omega arith)
        | inl p ↦ elim (Option-cases (get_elem? buf ptr)) [
          | inl e ↦ rw (line_program, p, e) tt
          | inr (op, e) ↦
              rw (line_program, p, e)
                (EndsBehind-then ptr (ptr + 1) buf _ _ (omega arith)
                  (line_op-EndsBehind base lengths op buf (ptr + 1))
                  (λ b r len' le.
                    line_program-EndsBehind fuel base lengths b r endcu (omega arith)))
        ]
      ]

  line_unit-EndsBehind :
      (buf : List ℕ) (ptr endcu version : ℕ)
      → endcu ≤ length buf
      → EndsBehind (ptr + 1) buf (line_unit d start adjust buf ptr endcu version)
  unfolding line_unit
  line_unit-EndsBehind buf ptr endcu version h =
      let at = ptr + 14 + (if leb 4 version then 1 else 0) in
      elim (Bool-cases (not (version == 2 || version == 3 || version == 4))) [
        | inl v ↦ rw (line_unit, v) tt
        | inr v ↦ elim (Option-cases (read_32 d buf (ptr + 6))) [
          | inl e ↦ rw (line_unit, v, e) tt
          | inr (len, e) ↦ elim (Bool-cases (ltb endcu (ptr + 10 + len))) [
            | inl f ↦ rw (line_unit, v, e, f) tt
            | inr f ↦ elim (Option-cases (get_elem? buf at)) [
              | inl g ↦ rw (line_unit, v, e, f, g) tt
              | inr (base, g) ↦
                  rw (line_unit, v, e, f, g)
                    (EndsBehind-then (ptr + 1) (ptr + 10 + len) buf (ok (buf, ptr + 10 + len))
                      (λ x. line_program d start adjust (length buf) base at x.0 x.1 endcu)
                      (omega arith) (Keeps-self _ buf, omega arith)
                      (λ b r len' le.
                        line_program-EndsBehind (length buf) base at b r endcu (omega arith)))
            ]
          ]
        ]
      ]

  line_loop-Ends :
      (fuel : ℕ) (buf : List ℕ) (ptr : ℕ)
      → length buf ≤ ptr + fuel
      → Ends ptr buf (line_loop d start adjust fuel buf ptr)
  unfolding line_loop
  line_loop-Ends zero buf ptr h =
      let p : ltb ptr (length buf) ≡ false = ground arith in rw p (Keeps-self ptr buf)
  line_loop-Ends (suc fuel) buf ptr h = elim (Bool-cases (ltb ptr (length buf))) [
    | inr p ↦ rw (line_loop, p) (Keeps-self ptr buf)
    | inl p ↦
        rw (line_loop, p)
          (Ends-header ptr buf _ _ (unit_header-HeaderFits d buf ptr) (λ endcu version lo hi.
            Ends-behind ptr (ptr + 1) buf _ _ (omega arith)
              (line_unit-EndsBehind buf ptr endcu version hi)
              (λ b r len' le. line_loop-Ends fuel b r (omega arith))))
  ]

-- `adjust_dwarf2_aranges` and `adjust_dwarf2_line` end on every section, however their units and
-- operations are formed: where they return 0, the section has its size.
pub tables-Ends :
    (d : Debug) (start adjust : ℕ) (buf : List ℕ)
    → Ends 0 buf (adjust_dwarf2_aranges d start adjust buf)
      × Ends 0 buf (adjust_dwarf2_line d start adjust buf)
unfolding adjust_dwarf2_aranges adjust_dwarf2_line
tables-Ends d start adjust buf = (
  aranges_loop-Ends d start adjust (length buf) buf 0 (omega arith),
  line_loop-Ends d start adjust (length buf) buf 0 (omega arith),
)
