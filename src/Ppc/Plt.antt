-- ===== src/Ppc/Plt.antt =====
-- ppc_fixup_plt and ppc_arch_prelink: the code in the PLT of an object that has no DT_PPC_GOT.
use prelink_cross.Base.{
  ℕ, ◌+◌, ◌-◌, ◌*◌, ◌/◌, Bool, ◌||◌, List, [], ◌∷◌, bit_and, bit_or, ltb, leb, ◌==◌, if◌then◌else◌,
  add64, sub64, u32, ◌>>>◌,
}
use prelink_cross.Bytes.{ByteOrder}
use prelink_cross.Data.{M, ◌>>◌, pure}
use prelink_cross.Reloc.{Rela}
use prelink_cross.RelocSections.{Dynamic}
use prelink_cross.Ppc.Words.{write_be32}

-- `plt + (18 + 2 * count + (count > 8192 ? (count - 8192) * 2 : 0)) * 4`, where the table of the
-- addresses starts: behind 18 words and two for each of the entries, or four from the 8192nd on.
unfoldable pub table_of : Dynamic → ℕ
table_of y =
    let count = u32 (y.info 2 / 12) in
    u32 (u32 (y.info 3) + (18 + 2 * count + (if ltb 8192 count then (count - 8192) * 2 else 0)) * 4)

-- `b` and `ba` with a displacement, of which the instruction holds 26 bits.
abbrev pub branch_to : ℕ → ℕ
branch_to disp = bit_or 0x48000000 (bit_and disp 0x3fffffc)

abbrev pub branch_absolute : ℕ → ℕ
branch_absolute value = bit_or 0x48000002 (bit_and value 0x3fffffc)

-- An entry that goes through the table, at its number there.
abbrev pub indexed_words : Dynamic → ℕ → ℕ → ℕ → List (ℕ × ℕ)
indexed_words y index at value =
    (u32 (table_of y + 4 * index), value)
    ∷ (at, bit_or 0x39600000 (bit_and (u32 (index * 4)) 0xffff))
    ∷ (add64 at 4, branch_to (sub64 (sub64 (u32 (y.info 3)) at) 4))
    ∷ []

-- The words that ppc_fixup_plt writes, each with its address, for an entry at `at`.
unfoldable pub plt_words : Dynamic → ℕ → ℕ → List (ℕ × ℕ)
plt_words y at value =
    let disp = u32 (sub64 value at) in
    let plt = u32 (y.info 3) in
    if leb 0xfe000000 disp || ltb disp 0x2000000
    then (at, branch_to disp) ∷ []
    else if leb 0xfe000000 (u32 value) || ltb value 0x2000000
    then (at, branch_absolute value) ∷ []
    else if ltb (sub64 at plt) ((8192 * 2 + 18) * 4)
    then indexed_words y (u32 (sub64 (sub64 at plt) (18 * 4) / (4 * 2))) at value
    else (at, bit_or 0x39800000 (bit_and (add64 value 0x8000 >>> 16) 0xffff))
      ∷ (add64 at 4, bit_or 0x398c0000 (bit_and value 0xffff))
      ∷ (add64 at 8, 0x7d8903a6)
      ∷ (add64 at 12, 0x4e800420)
      ∷ []

-- The words of ppc_arch_prelink: the start of the PLT.
unfoldable pub plt0_words : Dynamic → List (ℕ × ℕ)
plt0_words y =
    let plt = u32 (y.info 3) in
    let table = table_of y in
    (plt, bit_or 0x3d6b0000 (bit_and (u32 (table + 0x8000) >>> 16) 0xffff))
    ∷ (u32 (plt + 4), bit_or 0x816b0000 (bit_and table 0xffff))
    ∷ (u32 (plt + 8), 0x7d6903a6)
    ∷ (u32 (plt + 12), 0x4e800420)
    ∷ []

-- One write after the other; what they return is not looked at.
unfoldable pub write_all : ByteOrder → List (ℕ × ℕ) → M (Unit {0})
write_all host [] = pure tt
write_all host ((addr, word) ∷ l) = write_be32 host addr word >> write_all host l

pub fixup_plt : ByteOrder → Dynamic → Rela → ℕ → M (Unit {0})
fixup_plt host y rela value = write_all host (plt_words y rela.r_offset value)

-- It returns 0 always.
pub arch_prelink : ByteOrder → Bool → Dynamic → M (Unit {0})
arch_prelink host got y =
    if u32 (y.info 3) == 0 then pure tt else if got then pure tt else write_all host (plt0_words y)
