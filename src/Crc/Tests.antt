-- ===== src/Crc/Tests.antt =====
-- The check value of the checksum, and the two theorems at one input.
use prelink_cross.Base.{ℕ, ◌≡◌, refl, some, List, [], ◌∷◌, get_elem?, arith}
use prelink_cross.Crc.{crc32, crc_bytes, crc_byte, crc32_table, shift_bits}
use prelink_cross.Crc.Table.{crc32_table-shift_bits}

abbrev digits : List ℕ
digits = b'1' ∷ b'2' ∷ b'3' ∷ b'4' ∷ b'5' ∷ b'6' ∷ b'7' ∷ b'8' ∷ b'9' ∷ []

check_value : crc32 0 digits ≡ 0xcbf43926
unfolding crc32 crc_bytes crc_byte
check_value = refl

crc32_table-shift_bits_example : get_elem? crc32_table 200 ≡ some (shift_bits 8 200)
crc32_table-shift_bits_example = crc32_table-shift_bits 200 (omega arith)
