-- ===== src/X86_64/Adjust/Relative.antt =====
-- An R_X86_64_RELATIVE relocation whose word holds its addend.
use prelink_cross.Base.{ℕ, ◌<◌, ◌≡◌, true, some, ◌==◌, leb, add64, arith}
use prelink_cross.Bytes.{ByteOrder, lsb, limit_of}
use prelink_cross.Dso.{Dso}
use prelink_cross.Data.{read_u}
use prelink_cross.Data.ReadWrite.{read_u-write}
use prelink_cross.Reloc.{Rela, gelf_r_type}
use prelink_cross.X86_64.{relative, type_of, read_uleclass, write_leclass, class_width}
use prelink_cross.X86_64.Adjust.{adjust_rela, adjust_relative, adjust_equal_word, adjust_addend}

module _ (host : ByteOrder) (rela : Rela) (start adjust : ℕ) (d d1 d2 : Dso)
    (reads : read_uleclass host rela.r_offset d ≡ some (rela.r_addend, d1))
    (moves : leb start rela.r_addend ≡ true)
    (writes : write_leclass host rela.r_offset (add64 rela.r_addend adjust) d1
      ≡ some (true, d2)) where
  equal_word : adjust_equal_word host rela adjust d ≡ some (true, d2)
  equal_word =
      let same : (rela.r_addend == rela.r_addend) ≡ true = ground arith in
      ground (arith, reads, same, writes)

  relative_moved :
      adjust_relative host rela start adjust d ≡ some (adjust_addend host rela adjust, d2)
  relative_moved = ground (arith, moves, equal_word)

-- Where the word at `r_offset` equals the addend, and the addend is moved to another address of the
-- class: the relocation gets the new addend, and the word that is then read equals it.
pub adjust_rela-relative :
    (host : ByteOrder) (rela : Rela) (start adjust : ℕ) (d d1 d2 : Dso)
    → type_of (gelf_r_type rela.r_info) ≡ relative
    → read_uleclass host rela.r_offset d ≡ some (rela.r_addend, d1)
    → leb start rela.r_addend ≡ true
    → write_leclass host rela.r_offset (add64 rela.r_addend adjust) d1 ≡ some (true, d2)
    → add64 rela.r_addend adjust < limit_of (class_width d1.elf64)
    → (adjust_rela host rela start adjust d
        ≡ some (record rela { r_addend = add64 rela.r_addend adjust }, d2))
      × (read_u host lsb (class_width d1.elf64) rela.r_offset d2
          ≡ some (add64 rela.r_addend adjust, d2))
unfolding adjust_rela write_leclass
adjust_rela-relative host rela start adjust d d1 d2 type reads moves writes lt = (
  rw (type, adjust_rela) (relative_moved host rela start adjust d d1 d2 reads moves writes),
  (read_u-write host lsb (class_width d1.elf64) d1 rela.r_offset (add64 rela.r_addend adjust) d2 lt
      writes).0,
)
