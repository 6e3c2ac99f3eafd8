-- ===== src/Ppc/Reaches.antt =====
-- Where a jump to an entry of the PLT leads.
use prelink_cross.Base.{
  ℕ, suc, ◌+◌, ◌-◌, ◌*◌, ◌/◌, ◌%◌, ◌^◌, ◌<◌, ◌≤◌, ◌≡◌, ◌≢◌, ◌⊎◌, refl, ap, ◌∙◌, Bool, true, false,
  ◌||◌, some, arith, ltb, leb, u32, add64, sub64, ◌>>>◌, Bool-cases, inl, inr,
}
use prelink_cross.RelocSections.{Dynamic}
use prelink_cross.Ppc.Plt.{
  plt_words, plt0_words, table_of, indexed_words, branch_to, branch_absolute,
}
use prelink_cross.Ppc.Machine.{
  Instr, mtctr, bctr, decode, Cpu, signed_16, signed_26, exec, run, Holds,
}
use prelink_cross.Ppc.Encodings.{
  decode-branch, decode-branch_absolute, decode-index, decode-far, decode-far_low, decode-plt0,
  decode-plt0_load,
}

-- Some instructions later, the next one is at the address.
abbrev pub Reaches : (ℕ → ℕ) → Cpu → ℕ → Type 0
Reaches m s addr = (n : ℕ) × (s' : Cpu) × (run n m s ≡ some s') × (s'.pc ≡ addr)

run-step :
    (n : ℕ) (m : ℕ → ℕ) (s : Cpu) (at w : ℕ) (i : Instr)
    → s.pc ≡ at
    → m at ≡ u32 w
    → decode (u32 w) ≡ some i
    → run (suc n) m s ≡ run n m (exec m i s)
unfolding run
run-step n m s at w i p h e =
    let q : decode (m s.pc) ≡ some i = ap (λ t. decode (m t)) p ∙ ap decode h ∙ e in
    rw (run, q) refl

-- One more instruction before.
Reaches-step :
    (m : ℕ → ℕ) (s : Cpu) (at w : ℕ) (i : Instr) (addr : ℕ)
    → s.pc ≡ at
    → m at ≡ u32 w
    → decode (u32 w) ≡ some i
    → Reaches m (exec m i s) addr
    → Reaches m s addr
Reaches-step m s at w i addr p h e (n, s', r, q) = (suc n, s', run-step n m s at w i p h e ∙ r, q)

Reaches-here : (m : ℕ → ℕ) (s : Cpu) (addr : ℕ) → s.pc ≡ addr → Reaches m s addr
unfolding run
Reaches-here m s addr p = (0, s, refl, p)

-- A displacement of 26 bits.
abbrev pub is_near : ℕ → Bool
is_near disp = leb 0xfe000000 disp || ltb disp 0x2000000

signed_26-near :
    (disp : ℕ)
    → disp < 2 ^ 32
    → disp % 4 ≡ 0
    → is_near disp ≡ true
    → signed_26 (disp / 4 % 2 ^ 24 * 4) ≡ disp
signed_26-near disp h a p = ground arith

-- The halves of an address: the lower one is added with its sign, and the upper one makes up for it.
halves :
    (t offset : ℕ)
    → u32 (u32 (offset + u32 (t + 0x8000) >>> 16 % 2 ^ 16 * 2 ^ 16) + signed_16 (t % 2 ^ 16))
      ≡ u32 (t + offset)
halves t offset = ground arith

-- The branch back to the start of the PLT.
back_to :
    (plt at : ℕ)
    → plt % 4 ≡ 0
    → at % 4 ≡ 0
    → plt + 72 ≤ at
    → at < plt + 65608
    → at + 4 < 2 ^ 32
    → u32 (u32 (at + 4) + signed_26 (sub64 (sub64 plt at) 4 / 4 % 2 ^ 24 * 4)) ≡ plt
back_to plt at p_4 a_4 lo hi room =
    let e : sub64 (sub64 plt at) 4 / 4 % 2 ^ 24 * 4 ≡ 2 ^ 26 - (at + 4 - plt) = omega arith in
    rw e (ground arith)

-- The offset in the table fits the immediate operand.
small_offset :
    (index : ℕ) → index < 8192 → u32 (0 + signed_16 (u32 (index * 4) % 2 ^ 16)) ≡ 4 * index
small_offset index h = ground arith

-- The sum of two signed halves is near 0.
halves_near :
    (x y : ℕ)
    → x < 2 ^ 16
    → y < 2 ^ 16
    → (u32 (u32 (0 + signed_16 x) + signed_16 y) < 2 ^ 17)
      ⊎ (2 ^ 32 - 2 ^ 17 ≤ u32 (u32 (0 + signed_16 x) + signed_16 y))
halves_near x y h g = ground arith

halves_miss :
    (value : ℕ)
    → value < 2 ^ 32
    → is_near value ≡ false
    → u32 (u32 (0 + signed_16 (add64 value 0x8000 >>> 16 % 2 ^ 16)) + signed_16 (value % 2 ^ 16))
        / 4
        * 4
      ≢ value
halves_miss value h a e =
    let lo : 0x2000000 ≤ value = ground arith in
    let hi : value < 0xfe000000 = ground arith in
    elim (halves_near (add64 value 0x8000 >>> 16 % 2 ^ 16) (value % 2 ^ 16) (omega arith)
      (omega arith)) [ inl p ↦ omega arith | inr p ↦ omega arith ]

module _ (m : ℕ → ℕ) (at value : ℕ) (at_4 : at % 4 ≡ 0) (value_4 : value % 4 ≡ 0)
    (at_32 : at + 16 ≤ 2 ^ 32) (value_32 : value < 2 ^ 32) where
  near-Reaches :
      (s : Cpu)
      → s.pc ≡ at
      → is_near (u32 (sub64 value at)) ≡ true
      → m at ≡ u32 (branch_to (u32 (sub64 value at)))
      → Reaches m s value
  near-Reaches s p near h =
      let disp = u32 (sub64 value at) in
      Reaches-step m s at (branch_to disp) _ value p h (decode-branch disp) (
        Reaches-here m _ value
          (omega (arith, signed_26-near disp (omega arith) (omega arith) near)))

  absolute-Reaches :
      (s : Cpu)
      → s.pc ≡ at
      → is_near value ≡ true
      → m at ≡ u32 (branch_absolute value)
      → Reaches m s value
  absolute-Reaches s p near h =
      Reaches-step m s at (branch_absolute value) _ value p h (decode-branch_absolute value)
        (Reaches-here m _ value (signed_26-near value value_32 value_4 near))

  -- The start of the PLT takes the address from the table, at the offset in register 11.
  plt0-Reaches :
      (y : Dynamic) (offset : ℕ) (s : Cpu)
      → u32 (y.info 3) + 16 ≤ 2 ^ 32
      → s.pc ≡ u32 (y.info 3)
      → s.reg 11 ≡ offset
      → m (u32 (table_of y + offset)) ≡ value
      → Holds m (plt0_words y)
      → Reaches m s value
  unfolding plt0_words decode
  plt0-Reaches y offset s room p r e h =
      let plt = u32 (y.info 3) in
      let t = table_of y in
      Reaches-step m s plt _ _ value p h.0 (decode-plt0 (u32 (t + 0x8000) >>> 16)) (
        Reaches-step m _ (u32 (plt + 4)) _ _ value (omega arith) h.1.0 (decode-plt0_load t) (
          Reaches-step m _ (u32 (plt + 8)) 0x7d6903a6 (mtctr 11) value (omega arith) h.1.1.0 refl (
            Reaches-step m _ (u32 (plt + 12)) 0x4e800420 bctr value (omega arith) h.1.1.1.0 refl (
              Reaches-here m _ value (
                let g : m (
                      u32 (
                        u32 (s.reg 11 + u32 (t + 0x8000) >>> 16 % 2 ^ 16 * 2 ^ 16)
                        + signed_16 (t % 2 ^ 16)))
                    ≡ value =
                  ap m (rw r (halves t offset)) ∙ e in
                rw g (omega arith))))))

  -- An entry that goes through the table.
  indexed-Reaches :
      (y : Dynamic) (s : Cpu)
      → u32 (y.info 3) + 16 ≤ 2 ^ 32
      → u32 (y.info 3) % 4 ≡ 0
      → u32 (y.info 3) + 72 ≤ at
      → at < u32 (y.info 3) + 65608
      → s.pc ≡ at
      → Holds m (indexed_words y (u32 (sub64 (sub64 at (u32 (y.info 3))) 72 / 8)) at value)
      → Holds m (plt0_words y)
      → Reaches m s value
  indexed-Reaches y s room plt_4 lo hi p h g =
      let plt = u32 (y.info 3) in
      let index = u32 (sub64 (sub64 at plt) 72 / 8) in
      let back = sub64 (sub64 plt at) 4 in
      let small : index < 8192 = omega arith in
      Reaches-step m s at _ _ value p h.1.0 (decode-index (u32 (index * 4))) (
        Reaches-step m _ (add64 at 4) (branch_to back) _ value (omega arith) h.1.1.0
          (decode-branch back)
          (plt0-Reaches y (4 * index) _ room (rw p (back_to plt at plt_4 at_4 lo hi (omega arith)))
            (small_offset index small) (h.0 ∙ omega arith) g))

-- Let an entry of the PLT be one of the first 8192, behind the 18 words at its start, and all
-- addresses be multiples of four below 2 ^ 32. With the words of ppc_fixup_plt and ppc_arch_prelink
-- in memory, a jump to the entry leads to `value`, whichever of the three forms the entry has, and
-- whatever the registers hold.
pub plt_words-Reaches :
    (m : ℕ → ℕ) (y : Dynamic) (at value : ℕ) (s : Cpu)
    → at % 4 ≡ 0
    → value % 4 ≡ 0
    → at + 16 ≤ 2 ^ 32
    → value < 2 ^ 32
    → u32 (y.info 3) % 4 ≡ 0
    → u32 (y.info 3) + 72 ≤ at
    → at < u32 (y.info 3) + (8192 * 2 + 18) * 4
    → s.pc ≡ at
    → Holds m (plt_words y at value)
    → Holds m (plt0_words y)
    → Reaches m s value
unfolding plt_words
plt_words-Reaches m y at value s at_4 value_4 at_32 value_32 plt_4 lo hi p h g =
    elim (Bool-cases (is_near (u32 (sub64 value at)))) [
      | inl n ↦ let h' = rw n at h in near-Reaches m at value at_4 value_4 at_32 value_32 s p n h'.0
      | inr n ↦ elim (Bool-cases (leb 0xfe000000 (u32 value) || ltb value 0x2000000)) [
        | inl a ↦
            let h' = rw (n, a) at h in
            let q : is_near value ≡ true = ground arith in
            absolute-Reaches m at value at_4 value_4 at_32 value_32 s p q h'.0
        | inr a ↦
            let i : ltb (sub64 at (u32 (y.info 3))) ((8192 * 2 + 18) * 4) ≡ true = ground arith in
            let h' = rw (n, a, i) at h in
            indexed-Reaches m at value at_4 value_4 at_32 value_32 y s (omega arith) plt_4 lo
              (omega arith) p h' g
      ]
    ]

-- An entry further from the start of the PLT, with a value that no single branch reaches: the first
-- instruction sets register 12 to the upper half of the value, where `lis` would shift it. After
-- the four instructions, the next one is not at `value`, whatever `value` is.
pub plt_words-far :
    (m : ℕ → ℕ) (y : Dynamic) (at value : ℕ) (s : Cpu)
    → at + 16 ≤ 2 ^ 32
    → value < 2 ^ 32
    → u32 (y.info 3) + (8192 * 2 + 18) * 4 ≤ at
    → is_near (u32 (sub64 value at)) ≡ false
    → is_near value ≡ false
    → s.pc ≡ at
    → Holds m (plt_words y at value)
    → (s' : Cpu) × (run 4 m s ≡ some s') × (s'.pc ≢ value)
unfolding plt_words run decode
plt_words-far m y at value s at_32 value_32 far n a p h =
    let i : ltb (sub64 at (u32 (y.info 3))) ((8192 * 2 + 18) * 4) ≡ false = ground arith in
    let a' : (leb 0xfe000000 (u32 value) || ltb value 0x2000000) ≡ false = ground arith in
    let h' = rw (n, a', i) at h in
    (
      _,
      run-step 3 m s at _ _ p h'.0 (decode-far (add64 value 0x8000 >>> 16))
          ∙ run-step 2 m _ (add64 at 4) _ _ (omega arith) h'.1.0 (decode-far_low value)
          ∙ run-step 1 m _ (add64 at 8) 0x7d8903a6 (mtctr 12) (omega arith) h'.1.1.0 refl
          ∙ run-step 0 m _ (add64 at 12) 0x4e800420 bctr (omega arith) h'.1.1.1.0 refl,
      halves_miss value value_32 a,
    )
