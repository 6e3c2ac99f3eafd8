-- ===== src/X86_64/Undo/Got.antt =====
-- The second word of .got.plt: x86_64_arch_prelink against x86_64_arch_undo_prelink.
use prelink_cross.Base.{ℕ, ◌≡◌, ◌≢◌, ap, ◌∙◌, true, some, drop, ◌==◌, add64, arith}
use prelink_cross.Bytes.{ByteOrder, lsb, w64}
use prelink_cross.Dso.{Dso, Shdr, addr_to_sec}
use prelink_cross.Data.{◌>>◌, pure, write}
use prelink_cross.Data.ReadWrite.{read_u-write}
use prelink_cross.X86_64.{find_plt}
use prelink_cross.X86_64.Prelink.{arch_prelink}
use prelink_cross.X86_64.Undo.{arch_undo_prelink}

-- For an object with a DT_PLTGOT in a section and a .plt, and room for the word: prelinking stores
-- the address .plt + 0x16 in the second word of DT_PLTGOT, and undoing finds it there and stores 0.
pub arch_undo_prelink-arch_prelink :
    (host : ByteOrder) (pltgot n k : ℕ) (plt : Shdr) (d d1 d2 : Dso)
    → pltgot ≢ 0
    → addr_to_sec d pltgot ≡ (some n, d1)
    → find_plt (drop 1 d1.shdr) ≡ some plt
    → write host lsb w64 (add64 pltgot 8) (add64 plt.sh_addr 0x16) d1 ≡ some (true, d2)
    → addr_to_sec d2 pltgot ≡ (some k, d2)
    → (arch_prelink host pltgot d ≡ some (true, d2))
      × (arch_undo_prelink host pltgot d2 ≡ (write host lsb w64 (add64 pltgot 8) 0 >> pure true) d2)
unfolding arch_prelink arch_undo_prelink
arch_undo_prelink-arch_prelink host pltgot n k plt d d1 d2 some_got sec found writes again =
    let r =
      read_u-write host lsb w64 d1 (add64 pltgot 8) (add64 plt.sh_addr 0x16) d2 (omega arith)
        writes in
    let found2 : find_plt (drop 1 d2.shdr) ≡ some plt = ap (λ l. find_plt (drop 1 l)) r.1 ∙ found in
    let same : (add64 plt.sh_addr 0x16 == add64 plt.sh_addr 0x16) ≡ true = ground arith in
    (ground (arith, sec, found, writes), ground (arith, again, found2, r.0, same))
