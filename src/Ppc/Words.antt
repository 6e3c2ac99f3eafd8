-- ===== src/Ppc/Words.antt =====
-- The fields that src/arch-ppc.c puts into words, and its reads and writes, which are big-endian.
use prelink_cross.Base.{
  ℕ, ◌+◌, ◌-◌, ◌^◌, Bool, bit_and, bit_or, bit_xor, if◌then◌else◌, add64, sub64, ◌<<<◌, ◌>>>◌, ltb,
  u32,
}
use prelink_cross.Bytes.{ByteOrder, msb, w16, w32}
use prelink_cross.Data.{M, read_u, write}

abbrev pub read_ube32 : ByteOrder → ℕ → M ℕ
read_ube32 host addr d = read_u host msb w32 addr d

abbrev pub write_be32 : ByteOrder → ℕ → ℕ → M Bool
write_be32 host addr val d = write host msb w32 addr val d

abbrev pub write_be16 : ByteOrder → ℕ → ℕ → M Bool
write_be16 host addr val d = write host msb w16 addr val d

-- `(Elf32_Sword) x`, widened to 64 bits again.
unfoldable pub sword : ℕ → ℕ
sword x = if ltb (u32 x) (2 ^ 31) then u32 x else u32 x + (2 ^ 64 - 2 ^ 32)

-- `((value & 0xffff) ^ 0x8000) - 0x8000`.
unfoldable pub sign_16 : ℕ → ℕ
sign_16 value = sub64 (bit_xor (bit_and value 0xffff) 0x8000) 0x8000

-- The upper half, rounded for a lower half that is added as a signed number.
abbrev pub high_adjusted : ℕ → ℕ
high_adjusted value = add64 value 0x8000 >>> 16

-- The targets in a branch instruction; `word` is the instruction that is there.
unfoldable pub field_24 : ℕ → ℕ → ℕ
field_24 value word = bit_or (bit_and value 0x03fffffc) (bit_and word 0xfc000003)

unfoldable pub field_14 : ℕ → ℕ → ℕ
field_14 value word = bit_or (bit_and value 0xfffc) (bit_and word 0xffff0003)

-- With the bit that predicts the branch.
unfoldable pub field_14_predicted : Bool → ℕ → ℕ → ℕ
field_14_predicted taken value word =
    bit_or (bit_or (bit_and value 0xfffc) (bit_and word 0xffdf0003))
      (bit_and (bit_xor (if taken then 1 <<< 21 else 0) (value >>> 10)) 0x00200000)
