-- ===== src/Bytes/Tests.antt =====
-- Words in concrete buffers.
use prelink_cross.Base.{ℕ, ◌≡◌, refl, none, some, List, [], ◌∷◌, arith}
use prelink_cross.Bytes.{lsb, msb, w16, w32, w64, buf_read_une, buf_write_ne}
use prelink_cross.Bytes.RoundTrip.{Stored, buf_read-buf_write}

abbrev five : List ℕ
five = 0x11 ∷ 0x22 ∷ 0x33 ∷ 0x44 ∷ 0x55 ∷ []

read_lsb : buf_read_une lsb w32 five ≡ some 0x44332211
unfolding buf_read_une
read_lsb = refl

read_msb : buf_read_une msb w32 five ≡ some 0x11223344
unfolding buf_read_une
read_msb = refl

read_past_end : buf_read_une lsb w64 five ≡ none
unfolding buf_read_une
read_past_end = refl

write_msb : buf_write_ne msb w16 five 0xABCDE ≡ some (0xBC ∷ 0xDE ∷ 0x33 ∷ 0x44 ∷ 0x55 ∷ [])
unfolding buf_write_ne
write_msb = refl

buf_read-buf_write_example : Stored msb w32 five 0xDEADBEEF
buf_read-buf_write_example = buf_read-buf_write msb w32 five 0xDEADBEEF (omega arith) (omega arith)
