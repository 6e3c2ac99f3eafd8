-- ===== src/Dwarf2/Rounds.antt =====
-- One round of `adjust_location_list`, by the operands of the opcode.
use prelink_cross.Base.{
  ℕ, zero, suc, ◌+◌, ◌^◌, ◌≤◌, ◌<◌, ◌≡◌, refl, sym, ap, ap₂, ◌∙◌, Bool, true, false, Option, none,
  some, List, [], ◌∷◌, ◌++◌, arith, length, length-append, ltb, if◌then◌else◌, Bool-cases, inl, inr,
  add64,
}
use prelink_cross.Bytes.{ByteOrder, lsb, msb, limit_of, bytes_of}
use prelink_cross.Dwarf2.{Debug, CuData, Walk, ok, ◌then_◌, of_option, ptr_width, ptr_size, moves}
use prelink_cross.Dwarf2.Expressions.{
  Operand, address, bytes, numbers, call_ref, implicit_value, entry_value, operand_of, uleb_at,
  skip_numbers, ref_size, adjust_address, skip_operand, adjust_operand, adjust_location_list,
}
use prelink_cross.Dwarf2.Uleb.{leb128}
use prelink_cross.Dwarf2.Places.{
  ptr_bytes, read_ptr-prefix, write_ptr-prefix, get_elem?-prefix, uleb_at-prefix, IsNumber,
  uleb_at-IsNumber,
}
use mathlib.Core.List.{append_assoc, append-nil}

-- LEB128 numbers, one behind the other.
unfoldable pub AreNumbers : ℕ → List ℕ → Type 0
AreNumbers zero bs = bs ≡ []
AreNumbers (suc n) bs =
    (number : List ℕ) × (more : List ℕ) × IsNumber number
    × (bs ≡ number ++ more)
    × AreNumbers n more

-- The size of a reference, which needs a unit.
abbrev pub IsRef : Debug → Option CuData → ℕ → Type 0
IsRef d none n = ⊥
IsRef d (some c) n = n ≡ ref_size d c

skip_operand-ref :
    (d : Debug) (cu : Option CuData) (buf : List ℕ) (ptr n : ℕ)
    → IsRef d cu n
    → skip_operand d cu call_ref buf ptr ≡ ok (ptr + n)
unfolding skip_operand
skip_operand-ref d none buf ptr n h = absurd h
skip_operand-ref d (some c) buf ptr n h = ap (λ k. ok (ptr + k)) (sym h)

skip_operand-block :
    (d : Debug) (cu : Option CuData) (buf : List ℕ) (ptr v ptr' : ℕ)
    → uleb_at buf ptr ≡ some (v, ptr')
    → skip_operand d cu implicit_value buf ptr ≡ ok (ptr' + v)
unfolding skip_operand
skip_operand-block d cu buf ptr v ptr' e = rw (skip_operand, e) refl

pub ptr_bytes-size : (d : Debug) (v : ℕ) → length (ptr_bytes d.wide d.dso.e_data v) ≡ ptr_size d
ptr_bytes-size d v = by_case d.wide d.dso.e_data
  where
    by_case :
        (wide : Bool) (o : ByteOrder) → length (ptr_bytes wide o v) ≡ bytes_of (ptr_width wide)
    by_case true lsb = unfold ptr_bytes in refl
    by_case true msb = unfold ptr_bytes in refl
    by_case false lsb = unfold ptr_bytes in refl
    by_case false msb = unfold ptr_bytes in refl

skip_numbers_next :
    (n v ptr ptr' : ℕ) (buf : List ℕ)
    → uleb_at buf ptr ≡ some (v, ptr')
    → skip_numbers (suc n) buf ptr ≡ skip_numbers n buf ptr'
unfolding skip_numbers
skip_numbers_next n v ptr ptr' buf e = rw (skip_numbers, e) refl

-- Bytes behind the others count to what stands before the rest.
pub regroup : (a b c : List ℕ) → a ++ (b ++ c) ≡ (a ++ b) ++ c
regroup a b c = sym (append_assoc a b c)

skip_numbers-prefix :
    (n : ℕ) (pre bs r : List ℕ)
    → AreNumbers n bs
    → skip_numbers n (pre ++ (bs ++ r)) (length pre) ≡ some (length (pre ++ bs))
unfolding AreNumbers
skip_numbers-prefix zero pre bs r h =
    rw h (unfold skip_numbers in ap (λ l. some (length l)) (sym (append-nil pre)))
skip_numbers-prefix (suc n) pre bs r (number, more, is, e, h) =
    let (v, read) = uleb_at-IsNumber pre number (more ++ r) is in
    let split : pre ++ (bs ++ r) ≡ pre ++ (number ++ (more ++ r)) =
      ap (λ l. pre ++ l) (ap (λ l. l ++ r) e ∙ append_assoc number more r) in
    ap (λ buf. skip_numbers (suc n) buf (length pre)) split
    ∙ skip_numbers_next n v (length pre) (length (pre ++ number)) _ read
    ∙ ap (λ buf. skip_numbers n buf (length (pre ++ number))) (regroup pre number (more ++ r))
    ∙ skip_numbers-prefix n (pre ++ number) more r h
    ∙ ap (λ l. some (length l)) (append_assoc pre number more ∙ ap (λ l. pre ++ l) (sym e))

-- The bytes that the operands of an opcode can have. References need a unit.
abbrev pub AreOperands : Debug → Option CuData → Operand → List ℕ → Type 0
AreOperands d cu (bytes n) bs = length bs ≡ n
AreOperands d cu (numbers n) bs = AreNumbers n bs
AreOperands d cu implicit_value bs =
    (block : List ℕ) × (length block < 2 ^ 28) × (bs ≡ leb128 3 (length block) ++ block)
AreOperands d cu call_ref bs = IsRef d cu (length bs)
AreOperands d cu _ bs = ⊥

-- The address behind an address.
abbrev pub moved : Debug → ℕ → ℕ → ℕ → ℕ
moved d start adjust v = if moves d start v then add64 v adjust else v

module _ (d : Debug) (cu : Option CuData) (start adjust : ℕ) where
  adjust_address-prefix :
      (pre r : List ℕ) (v : ℕ)
      → v < limit_of (ptr_width d.wide)
      → adjust_address d start adjust (pre ++ (ptr_bytes d.wide d.dso.e_data v ++ r)) (length pre)
        ≡ some (pre ++ (ptr_bytes d.wide d.dso.e_data (moved d start adjust v) ++ r))
  unfolding adjust_address
  adjust_address-prefix pre r v h = elim (Bool-cases (moves d start v)) [
    | inl p ↦ rw (adjust_address, read_ptr-prefix d pre r v h, p) (write_ptr-prefix d pre r v _)
    | inr p ↦ rw (adjust_address, read_ptr-prefix d pre r v h, p) refl
  ]

  -- The operands of an opcode other than the two with addresses are passed over.
  pub adjust_operand-prefix :
      (walk : List ℕ → ℕ → ℕ → Walk (List ℕ)) (o : Operand) (pre bs r : List ℕ) (end : ℕ)
      → AreOperands d cu o bs
      → adjust_operand d cu start adjust walk o (pre ++ (bs ++ r)) (length pre) end
        ≡ walk (pre ++ (bs ++ r)) (length (pre ++ bs)) end
  unfolding adjust_operand skip_operand
  adjust_operand-prefix walk (bytes n) pre bs r end h =
      ap (λ p. walk (pre ++ (bs ++ r)) p end) (omega (arith, length-append pre bs))
  adjust_operand-prefix walk (numbers n) pre bs r end h =
      ap (λ o. of_option o then_ (λ p. walk (pre ++ (bs ++ r)) p end))
        (skip_numbers-prefix n pre bs r h)
  adjust_operand-prefix walk implicit_value pre bs r end (block, lt, e) =
      let number = leb128 3 (length block) in
      let split : pre ++ (bs ++ r) ≡ pre ++ (number ++ (block ++ r)) =
        ap (λ l. pre ++ l) (ap (λ l. l ++ r) e ∙ append_assoc number block r) in
      let read : uleb_at (pre ++ (bs ++ r)) (length pre)
          ≡ some (length block, length (pre ++ number)) =
        ap (λ buf. uleb_at buf (length pre)) split
        ∙ uleb_at-prefix pre (block ++ r) (length block) lt in
      let reach : length (pre ++ number) + length block ≡ length (pre ++ bs) = rw e (
        omega (
          arith,
          length-append pre number,
          length-append number block,
          length-append pre (number ++ block),
        )) in
      ap (λ w. w then_ (λ p. walk (pre ++ (bs ++ r)) p end))
        (skip_operand-block d cu _ (length pre) (length block) _ read)
      ∙ ap (λ p. walk (pre ++ (bs ++ r)) p end) reach
  adjust_operand-prefix walk call_ref pre bs r end h =
      ap (λ w. w then_ (λ p. walk (pre ++ (bs ++ r)) p end))
        (skip_operand-ref d cu _ (length pre) (length bs) h)
      ∙ ap (λ p. walk (pre ++ (bs ++ r)) p end) (sym (length-append pre bs))
  adjust_operand-prefix walk _ pre bs r end h = absurd h

  pub address_round :
      (walk : List ℕ → ℕ → ℕ → Walk (List ℕ)) (pre r : List ℕ) (v end : ℕ)
      → v < limit_of (ptr_width d.wide)
      → adjust_operand d cu start adjust walk address
          (pre ++ (ptr_bytes d.wide d.dso.e_data v ++ r))
          (length pre)
          end
        ≡ walk
            ((pre ++ ptr_bytes d.wide d.dso.e_data (moved d start adjust v)) ++ r)
            (length (pre ++ ptr_bytes d.wide d.dso.e_data (moved d start adjust v)))
            end
  unfolding adjust_operand
  address_round walk pre r v end h =
      let word = ptr_bytes d.wide d.dso.e_data (moved d start adjust v) in
      let reach : length pre + ptr_size d ≡ length (pre ++ word) =
        omega (arith, length-append pre word, ptr_bytes-size d (moved d start adjust v)) in
      ap (λ o. of_option o then_ (λ buf. walk buf (length pre + ptr_size d) end))
        (adjust_address-prefix pre r v h)
      ∙ ap₂ (λ buf p. walk buf p end) (regroup pre word r) reach

  pub entry_round :
      (walk : List ℕ → ℕ → ℕ → Walk (List ℕ)) (pre r : List ℕ) (n end : ℕ)
      → n < 2 ^ 28
      → length (pre ++ leb128 3 n) + n ≤ end
      → adjust_operand d cu start adjust walk entry_value
          (pre ++ (leb128 3 n ++ r))
          (length pre)
          end
        ≡ (let at = length (pre ++ leb128 3 n) in
            walk ((pre ++ leb128 3 n) ++ r) at (at + n) then_ (λ buf. walk buf (at + n) end))
  unfolding adjust_operand
  entry_round walk pre r n end lt le =
      let p : ltb end (length (pre ++ leb128 3 n) + n) ≡ false = ground arith in
      rw (adjust_operand, uleb_at-prefix pre r n lt, p, regroup pre (leb128 3 n) r) refl

  -- The loop at an opcode.
  pub walk_round :
      (fuel : ℕ) (pre r : List ℕ) (op end : ℕ)
      → length pre < end
      → adjust_location_list d cu start adjust (suc fuel) (pre ++ op ∷ r) (length pre) end
        ≡ adjust_operand d cu start adjust
            (adjust_location_list d cu start adjust fuel)
            (operand_of op)
            ((pre ++ op ∷ []) ++ r)
            (length (pre ++ op ∷ []))
            end
  unfolding adjust_location_list
  walk_round fuel pre r op end h =
      let p : ltb (length pre) end ≡ true = ground arith in
      let at : length pre + 1 ≡ length (pre ++ op ∷ []) =
        omega (arith, length-append pre (op ∷ [])) in
      rw (adjust_location_list, p, get_elem?-prefix pre r op, at, append_assoc) refl
