-- ===== src/Crc/Table.antt =====
-- The table of src/crc32.c is the one that src/makecrc.c prints.
use prelink_cross.Base.{ℕ, zero, suc, ◌+◌, ◌<◌, ◌≡◌, refl, ap, ◌∙◌, some, arith, get_elem?}
use prelink_cross.Crc.{crc32_table, printed_from, shift_bits}

table-printed_from : crc32_table ≡ printed_from 0 256
unfolding printed_from
table-printed_from = refl

get_elem?-printed_from :
    (i count n : ℕ) → n < count → get_elem? (printed_from i count) n ≡ some (shift_bits 8 (i + n))
unfolding printed_from
get_elem?-printed_from i zero n h = absurd (omega arith)
get_elem?-printed_from i (suc count) zero h = ap (λ k. some (shift_bits 8 k)) (omega arith)
get_elem?-printed_from i (suc count) (suc n) h =
    get_elem?-printed_from (i + 1) count n (omega arith)
    ∙ ap (λ k. some (shift_bits 8 k)) (omega arith)

-- Every entry of the table is the register that starts with the number of the entry, after eight
-- bits have been shifted out of it.
pub crc32_table-shift_bits : (n : ℕ) → n < 256 → get_elem? crc32_table n ≡ some (shift_bits 8 n)
crc32_table-shift_bits n h =
    ap (λ l. get_elem? l n) table-printed_from
    ∙ get_elem?-printed_from 0 256 n h
    ∙ ap (λ k. some (shift_bits 8 k)) (omega arith)
