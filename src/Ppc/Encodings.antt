-- ===== src/Ppc/Encodings.antt =====
-- The words of the PLT as instructions.
use prelink_cross.Base.{
  ℕ, ◌+◌, ◌*◌, ◌/◌, ◌%◌, ◌^◌, ◌≡◌, ap, ◌∙◌, true, false, some, bit_and, bit_or, arith, u32,
}
use prelink_cross.Base.Bits.{bit_and_low, bit_and_high, bit_or_join_left, bit_or_high}
use prelink_cross.Ppc.Plt.{branch_to, branch_absolute}
use prelink_cross.Ppc.Machine.{Instr, addi, addis, lwz, decode}
use prelink_cross.Ppc.Machine

-- A field of 26 bits without the two lowest.
field_26 : (x : ℕ) → bit_and x 0x3fffffc ≡ x / 4 % 2 ^ 24 * 4
field_26 x =
    let e : x ≡ x % 4 + x / 4 * 2 ^ 2 = omega arith in
    let h : bit_and (x % 4 + x / 4 * 2 ^ 2) (0xffffff * 2 ^ 2) ≡ bit_and (x / 4) 0xffffff * 2 ^ 2 =
      bit_and_high 2 (x / 4) (x % 4) 0xffffff (omega arith) in
    ap (λ t. bit_and t 0x3fffffc) e ∙ h ∙ ap (λ t. t * 4) (bit_and_low 24 (x / 4))

pub branch-value : (x : ℕ) → branch_to x ≡ 18 * 2 ^ 26 + x / 4 % 2 ^ 24 * 4
branch-value x =
    ap (λ t. bit_or 0x48000000 t) (field_26 x)
    ∙ bit_or_join_left 26 (x / 4 % 2 ^ 24 * 4) 18 (omega arith)

pub branch_absolute-value : (x : ℕ) → branch_absolute x ≡ 18 * 2 ^ 26 + 2 + x / 4 % 2 ^ 24 * 4
branch_absolute-value x =
    let f = x / 4 % 2 ^ 24 in
    let h : bit_or (2 + 18 * 2 ^ 24 * 2 ^ 2) (f * 2 ^ 2) ≡ 2 + bit_or (18 * 2 ^ 24) f * 2 ^ 2 =
      bit_or_high 2 2 (18 * 2 ^ 24) f (omega arith) in
    let j : bit_or (18 * 2 ^ 24) f ≡ 18 * 2 ^ 24 + f = bit_or_join_left 24 f 18 (omega arith) in
    ap (λ t. bit_or 0x48000002 t) (field_26 x) ∙ h ∙ omega (arith, j)

-- An instruction with an immediate operand of 16 bits; `high` is its upper half.
pub immediate-value :
    (high x : ℕ) → bit_or (high * 2 ^ 16) (bit_and x 0xffff) ≡ high * 2 ^ 16 + x % 2 ^ 16
immediate-value high x =
    ap (λ t. bit_or (high * 2 ^ 16) t) (bit_and_low 16 x)
    ∙ bit_or_join_left 16 (x % 2 ^ 16) high (omega arith)

pub decode-branch :
    (x : ℕ) → decode (u32 (branch_to x)) ≡ some (Machine.branch (x / 4 % 2 ^ 24 * 4) false)
unfolding decode
decode-branch x = rw (branch-value x) (ground arith)

pub decode-branch_absolute :
    (x : ℕ) → decode (u32 (branch_absolute x)) ≡ some (Machine.branch (x / 4 % 2 ^ 24 * 4) true)
unfolding decode
decode-branch_absolute x = rw (branch_absolute-value x) (ground arith)

-- The instructions with an immediate operand: `li` of register 11, the two of the entry that is far
-- from the start of the PLT, and the two of that start.
pub decode-index :
    (x : ℕ) → decode (u32 (bit_or 0x39600000 (bit_and x 0xffff))) ≡ some (addi 11 0 (x % 2 ^ 16))
unfolding decode
decode-index x = rw (immediate-value 0x3960 x) (ground arith)

pub decode-far :
    (x : ℕ) → decode (u32 (bit_or 0x39800000 (bit_and x 0xffff))) ≡ some (addi 12 0 (x % 2 ^ 16))
unfolding decode
decode-far x = rw (immediate-value 0x3980 x) (ground arith)

pub decode-far_low :
    (x : ℕ) → decode (u32 (bit_or 0x398c0000 (bit_and x 0xffff))) ≡ some (addi 12 12 (x % 2 ^ 16))
unfolding decode
decode-far_low x = rw (immediate-value 0x398c x) (ground arith)

pub decode-plt0 :
    (x : ℕ) → decode (u32 (bit_or 0x3d6b0000 (bit_and x 0xffff))) ≡ some (addis 11 11 (x % 2 ^ 16))
unfolding decode
decode-plt0 x = rw (immediate-value 0x3d6b x) (ground arith)

pub decode-plt0_load :
    (x : ℕ) → decode (u32 (bit_or 0x816b0000 (bit_and x 0xffff))) ≡ some (lwz 11 11 (x % 2 ^ 16))
unfolding decode
decode-plt0_load x = rw (immediate-value 0x816b x) (ground arith)
