-- ===== src/Dwarf2/Meaning.antt =====
-- A DWARF expression as its operations, and what `adjust_location_list` makes of its bytes.
use prelink_cross.Base.{
  ℕ, zero, suc, ◌+◌, ◌^◌, ◌≤◌, ◌<◌, ◌≡◌, refl, sym, ap, ap₂, ◌∙◌, false, Option, List, [], ◌∷◌,
  ◌++◌, arith, length, length-append, ltb,
}
use prelink_cross.Bytes.{limit_of}
use prelink_cross.Dwarf2.{Debug, CuData, ok, ◌then_◌, ptr_width, ptr_size}
use prelink_cross.Dwarf2.Expressions.{operand_of, adjust_location_list}
use prelink_cross.Dwarf2.Uleb.{leb128}
use prelink_cross.Dwarf2.Places.{ptr_bytes}
use prelink_cross.Dwarf2.Rounds.{
  AreOperands, moved, regroup, ptr_bytes-size, adjust_operand-prefix, address_round, entry_round,
  walk_round,
}
use mathlib.Core.List.{append_assoc}

-- The operations: DW_OP_addr with its address, DW_OP_GNU_entry_value with an expression, and any
-- other opcode with the bytes of its operands.
pub data Expression : Type 0 where
  done : Expression
  addr : ℕ → Expression → Expression
  entry : Expression → Expression → Expression
  other : ℕ → List ℕ → Expression → Expression

module _ (d : Debug) (cu : Option CuData) where
  abbrev pub size : Expression → ℕ
  size done = 0
  size (addr v e) = 1 + ptr_size d + size e
  size (entry e f) = 1 + length (leb128 3 (size e)) + size e + size f
  size (other op bs e) = 1 + length bs + size e

  abbrev pub IsExpression : Expression → Type 0
  IsExpression done = Unit
  IsExpression (addr v e) = (v < limit_of (ptr_width d.wide)) × IsExpression e
  IsExpression (entry e f) = (size e < 2 ^ 28) × IsExpression e × IsExpression f
  IsExpression (other op bs e) = AreOperands d cu (operand_of op) bs × IsExpression e

  -- The bytes of an expression and what follows them.
  abbrev pub print : Expression → List ℕ → List ℕ
  print done r = r
  print (addr v e) r = 0x03 ∷ (ptr_bytes d.wide d.dso.e_data v ++ print e r)
  print (entry e f) r = 0xf3 ∷ (leb128 3 (size e) ++ print e (print f r))
  print (other op bs e) r = op ∷ (bs ++ print e r)

  module _ (start adjust : ℕ) where
    abbrev pub adjusted : Expression → Expression
    adjusted done = done
    adjusted (addr v e) = addr (moved d start adjust v) (adjusted e)
    adjusted (entry e f) = entry (adjusted e) (adjusted f)
    adjusted (other op bs e) = other op bs (adjusted e)

    size-adjusted : (e : Expression) → size (adjusted e) ≡ size e
    size-adjusted done = refl
    size-adjusted (addr v e) = omega (arith, size-adjusted e)
    size-adjusted (entry e f) = omega (
      arith,
      size-adjusted e,
      size-adjusted f,
      ap (λ (n : ℕ). length (leb128 3 n)) (size-adjusted e),
    )
    size-adjusted (other op bs e) = omega (arith, size-adjusted e)

    print-append : (e : Expression) (r : List ℕ) → print e r ≡ print e [] ++ r
    print-append done r = refl
    print-append (addr v e) r =
        ap (λ l. 0x03 ∷ l)
          (ap (λ l. ptr_bytes d.wide d.dso.e_data v ++ l) (print-append e r)
            ∙ regroup (ptr_bytes d.wide d.dso.e_data v) (print e []) r)
    print-append (entry e f) r =
        ap (λ l. 0xf3 ∷ l)
          (ap (λ l. leb128 3 (size e) ++ l)
              (print-append e (print f r)
                ∙ ap (λ l. print e [] ++ l) (print-append f r)
                ∙ regroup (print e []) (print f []) r
                ∙ ap (λ l. l ++ r) (sym (print-append e (print f []))))
            ∙ regroup (leb128 3 (size e)) (print e (print f [])) r)
    print-append (other op bs e) r =
        ap (λ l. op ∷ l) (ap (λ l. bs ++ l) (print-append e r) ∙ regroup bs (print e []) r)

    length-print : (e : Expression) (r : List ℕ) → length (print e r) ≡ size e + length r
    length-print done r = omega arith
    length-print (addr v e) r =
        let n = length-append (ptr_bytes d.wide d.dso.e_data v) (print e r) in
        omega (arith, n, ptr_bytes-size d v, length-print e r)
    length-print (entry e f) r =
        let n = length-append (leb128 3 (size e)) (print e (print f r)) in
        omega (arith, n, length-print e (print f r), length-print f r)
    length-print (other op bs e) r = omega (arith, length-append bs (print e r), length-print e r)

    -- The parts of an entry value behind one another.
    entry_joined :
        (pre : List ℕ) (e f : Expression) (n : ℕ) (post : List ℕ)
        → size e ≡ n
        → (((pre ++ 0xf3 ∷ []) ++ leb128 3 n) ++ print e []) ++ print f post
          ≡ pre ++ print (entry e f) post
    entry_joined pre e f n post s =
        append_assoc ((pre ++ 0xf3 ∷ []) ++ leb128 3 n) (print e []) (print f post)
        ∙ ap (λ l. ((pre ++ 0xf3 ∷ []) ++ leb128 3 n) ++ l) (sym (print-append e (print f post)))
        ∙ append_assoc (pre ++ 0xf3 ∷ []) (leb128 3 n) _
        ∙ append_assoc pre (0xf3 ∷ []) _
        ∙ ap (λ (k : ℕ). pre ++ 0xf3 ∷ (leb128 3 k ++ print e (print f post))) (sym s)

    -- The walk over a printed expression behind `pre`.
    walk-print :
        (e : Expression) (fuel : ℕ) (pre post : List ℕ) (end : ℕ)
        → IsExpression e
        → size e ≤ fuel
        → end ≡ length pre + size e
        → adjust_location_list d cu start adjust fuel (pre ++ print e post) (length pre) end
          ≡ ok (pre ++ print (adjusted e) post)
    unfolding adjust_location_list operand_of
    walk-print done zero pre post end h le at =
        let p : ltb (length pre) end ≡ false = ground arith in rw (adjust_location_list, p) refl
    walk-print done (suc fuel) pre post end h le at =
        let p : ltb (length pre) end ≡ false = ground arith in rw (adjust_location_list, p) refl
    walk-print (addr v e) zero pre post end h le at = absurd (omega arith)
    walk-print (addr v e) (suc fuel) pre post end (fits, h) le at =
        let word = ptr_bytes d.wide d.dso.e_data (moved d start adjust v) in
        let pre1 = pre ++ 0x03 ∷ [] in
        let n = ptr_bytes-size d (moved d start adjust v) in
        let m = length-append pre (0x03 ∷ []) in
        walk_round d cu start adjust fuel pre _ 0x03 end (omega arith)
        ∙ address_round d cu start adjust (adjust_location_list d cu start adjust fuel) pre1
            (print e post) v end fits
        ∙ walk-print e fuel (pre1 ++ word) post end h (omega arith)
            (omega (arith, length-append pre1 word))
        ∙ ap ok (append_assoc pre1 word _ ∙ append_assoc pre (0x03 ∷ []) _)
    walk-print (other op bs e) zero pre post end h le at = absurd (omega arith)
    walk-print (other op bs e) (suc fuel) pre post end (operands, h) le at =
        let pre1 = pre ++ op ∷ [] in
        let m = length-append pre (op ∷ []) in
        walk_round d cu start adjust fuel pre _ op end (omega arith)
        ∙ adjust_operand-prefix d cu start adjust (adjust_location_list d cu start adjust fuel)
            (operand_of op) pre1 bs (print e post) end operands
        ∙ ap (λ buf. adjust_location_list d cu start adjust fuel buf (length (pre1 ++ bs)) end)
            (regroup pre1 bs (print e post))
        ∙ walk-print e fuel (pre1 ++ bs) post end h (omega arith)
            (omega (arith, length-append pre1 bs))
        ∙ ap ok (append_assoc pre1 bs _ ∙ append_assoc pre (op ∷ []) _)
    walk-print (entry e f) zero pre post end h le at = absurd (omega arith)
    walk-print (entry e f) (suc fuel) pre post end (small, he, hf) le at =
        let number = leb128 3 (size e) in
        let pre1 = pre ++ 0xf3 ∷ [] in
        let pre2 = pre1 ++ number in
        let pre3 = pre2 ++ print (adjusted e) [] in
        let m = length-append pre (0xf3 ∷ []) in
        let m2 = length-append pre1 number in
        let m3 = length-append pre2 (print (adjusted e) []) in
        let s = size-adjusted e in
        let l = length-print (adjusted e) [] in
        let at3 : length pre2 + size e ≡ length pre3 = omega arith in
        walk_round d cu start adjust fuel pre _ 0xf3 end (omega arith)
        ∙ entry_round d cu start adjust (adjust_location_list d cu start adjust fuel) pre1
            (print e (print f post)) (size e) end small (omega arith)
        ∙ ap
            (λ w. w then_ (λ buf.
              adjust_location_list d cu start adjust fuel buf (length pre2 + size e) end))
            (walk-print e fuel pre2 (print f post) (length pre2 + size e) he (omega arith) refl)
        ∙ ap₂ (λ buf p. adjust_location_list d cu start adjust fuel buf p end)
            (ap (λ l. pre2 ++ l) (print-append (adjusted e) (print f post))
              ∙ regroup pre2 (print (adjusted e) []) (print f post))
            at3
        ∙ walk-print f fuel pre3 post end hf (omega arith) (omega arith)
        ∙ ap ok (entry_joined pre (adjusted e) (adjusted f) (size e) post s)

-- On the bytes of an expression, with anything before and behind them, `adjust_location_list` returns
-- 0 and adds `adjust` to the address of each DW_OP_addr that is `start` or more and lies in a
-- section, also in the expressions of DW_OP_GNU_entry_value, and changes no other byte. The
-- expression consists of opcodes with operands of a fixed size, with LEB128 numbers, signed or not
-- and of any length, of DW_OP_implicit_value, of references to a unit, and of these two. The lengths
-- of blocks and of the nested expressions are below 2 ^ 28, in their shortest LEB128 form.
pub adjust_location_list-print :
    (d : Debug) (cu : Option CuData) (start adjust : ℕ) (e : Expression) (pre post : List ℕ)
    → IsExpression d cu e
    → adjust_location_list d cu start adjust
        (size d cu e)
        (pre ++ print d cu e post)
        (length pre)
        (length pre + size d cu e)
      ≡ ok (pre ++ print d cu (adjusted d cu start adjust e) post)
adjust_location_list-print d cu start adjust e pre post h =
    walk-print d cu start adjust e (size d cu e) pre post _ h (omega arith) refl
