-- ===== src/Ppc/Machine.antt =====
-- The instructions of PowerPC that src/arch-ppc.c writes into the PLT, as the architecture defines
-- them: what they do to the registers, to CTR and to the address of the next instruction.
use prelink_cross.Base.{
  ℕ, zero, suc, ◌+◌, ◌-◌, ◌*◌, ◌/◌, ◌%◌, ◌^◌, ◌≡◌, Bool, ◌&&◌, Option, none, some, List, ltb, ◌==◌,
  if◌then◌else◌, u32, All,
}

pub data Instr : Type 0 where
  addi addis lwz : ℕ → ℕ → ℕ → Instr
  branch : ℕ → Bool → Instr
  mtctr : ℕ → Instr
  bctr : Instr

-- The primary opcode is in the six highest bits; `b` with its link bit set is left out.
unfoldable pub decode : ℕ → Option Instr
decode w =
    let op = w / 2 ^ 26 in
    let d = w / 2 ^ 21 % 32 in
    let a = w / 2 ^ 16 % 32 in
    let imm = w % 2 ^ 16 in
    if op == 14
    then some (addi d a imm)
    else if op == 15
    then some (addis d a imm)
    else if op == 32
    then some (lwz d a imm)
    else if op == 18 && w % 2 == 0
    then some (branch (w / 4 % 2 ^ 24 * 4) (w / 2 % 2 == 1))
    else if op == 31 && w % 2 ^ 21 == 0x903a6
    then some (mtctr d)
    else if w == 0x4e800420
    then some bctr
    else none

pub record Cpu : Type 0 where
  pub pc : ℕ
  pub reg : ℕ → ℕ
  pub ctr : ℕ

-- A field of 16 bits and one of 26, read with their signs.
abbrev pub signed_16 : ℕ → ℕ
signed_16 x = if ltb x (2 ^ 15) then x else x + (2 ^ 32 - 2 ^ 16)

abbrev pub signed_26 : ℕ → ℕ
signed_26 x = if ltb x (2 ^ 25) then x else x + (2 ^ 32 - 2 ^ 26)

-- Register 0 as the second operand is the number 0.
abbrev pub operand : Cpu → ℕ → ℕ
operand s a = if a == 0 then 0 else s.reg a

abbrev pub load : Cpu → ℕ → ℕ → Cpu
load s d v = record s { pc = u32 (s.pc + 4); reg = λ i. if i == d then v else s.reg i }

-- `m` is the memory, by words.
abbrev pub exec : (ℕ → ℕ) → Instr → Cpu → Cpu
exec m (addi d a imm) s = load s d (u32 (operand s a + signed_16 imm))
exec m (addis d a imm) s = load s d (u32 (operand s a + imm * 2 ^ 16))
exec m (lwz d a imm) s = load s d (m (u32 (operand s a + signed_16 imm)))
exec m (branch li absolute) s = record s {
  pc = if absolute then signed_26 li else u32 (s.pc + signed_26 li);
}
exec m (mtctr r) s = record s { pc = u32 (s.pc + 4); ctr = s.reg r }
exec m bctr s = record s { pc = s.ctr / 4 * 4 }

unfoldable pub run : ℕ → (ℕ → ℕ) → Cpu → Option Cpu
run zero m s = some s
run (suc n) m s = elim (decode (m s.pc)) [ none ↦ none | some i ↦ run n m (exec m i s) ]

-- The memory holds the words, of 32 bits each.
abbrev pub Holds : (ℕ → ℕ) → List (ℕ × ℕ) → Type 0
Holds m l = All (λ p. m p.0 ≡ u32 p.1) l
