-- ===== src/Crc/Concat.antt =====
-- The checksum of a file is taken block by block.
use prelink_cross.Base.{
  ℕ, zero, suc, ◌^◌, ◌<◌, ◌≡◌, refl, sym, ap, ◌∙◌, Bool, true, ◌&&◌, ltb, List, [], ◌∷◌, ◌++◌,
  arith, bit_and, bit_xor, get_or, ◌>>>◌, All,
}
use prelink_cross.Base.Bits.{bit_xor-lt}
use prelink_cross.Crc.{crc32_table, not32, crc_byte, crc_bytes, crc32}

get_or-lt : (l : List ℕ) (n limit : ℕ) → 0 < limit → All (λ x. x < limit) l → get_or l n 0 < limit
get_or-lt [] n limit pos h = pos
get_or-lt (x ∷ l) zero limit pos h = h.0
get_or-lt (x ∷ l) (suc n) limit pos h = get_or-lt l n limit pos h.1

abbrev all_below : ℕ → List ℕ → Bool
all_below limit [] = true
all_below limit (x ∷ l) = ltb x limit && all_below limit l

all_below-All : (limit : ℕ) (l : List ℕ) → all_below limit l ≡ true → All (λ x. x < limit) l
all_below-All limit [] h = tt
all_below-All limit (x ∷ l) h = (ground arith, all_below-All limit l (ground arith))

table_small : All (λ x. x < 2 ^ 32) crc32_table
table_small = all_below-All (2 ^ 32) crc32_table refl

crc_byte-lt : (crc byte : ℕ) → crc < 2 ^ 32 → crc_byte crc byte < 2 ^ 32
unfolding crc_byte
crc_byte-lt crc byte h =
    bit_xor-lt 32 _ (crc >>> 8)
      (get_or-lt crc32_table (bit_and (bit_xor crc byte) 0xff) (2 ^ 32) (omega arith) table_small)
      (omega arith)

crc_bytes-lt : (crc : ℕ) (buf : List ℕ) → crc < 2 ^ 32 → crc_bytes crc buf < 2 ^ 32
unfolding crc_bytes
crc_bytes-lt crc [] h = h
crc_bytes-lt crc (b ∷ buf) h = crc_bytes-lt (crc_byte crc b) buf (crc_byte-lt crc b h)

crc_bytes-append : (crc : ℕ) (a b : List ℕ) → crc_bytes crc (a ++ b) ≡ crc_bytes (crc_bytes crc a) b
unfolding crc_bytes
crc_bytes-append crc [] b = refl
crc_bytes-append crc (x ∷ a) b = crc_bytes-append (crc_byte crc x) a b

-- The checksum of two blocks, one after the other, is that of the second, started with that of the
-- first, as src/checksum.c goes from block to block.
pub crc32-append : (crc : ℕ) (a b : List ℕ) → crc32 crc (a ++ b) ≡ crc32 (crc32 crc a) b
unfolding crc32
crc32-append crc a b =
    let lt = crc_bytes-lt (not32 crc) a (omega arith) in
    let back : not32 (not32 (crc_bytes (not32 crc) a)) ≡ crc_bytes (not32 crc) a = omega arith in
    ap not32 (crc_bytes-append (not32 crc) a b ∙ ap (λ c. crc_bytes c b) (sym back))
