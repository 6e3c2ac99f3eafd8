-- ===== src/RelocInfo/Tests.antt =====
-- The parts of one `r_info` of 64-bit MIPS.
use prelink_cross.Base.{ℕ, ◌≡◌, refl, true, some, [], arith}
use prelink_cross.Bytes.{lsb, msb, buf_read_une, buf_write_ne}
use prelink_cross.Dso.{Dso}
use prelink_cross.RelocInfo.{mips64_r_info_ext}
use prelink_cross.RelocInfo.RoundTrip.{HasParts, mips64_r_info_ext-HasParts}

ext_lsb : mips64_r_info_ext lsb 0x12345 0 3 18 0 ≡ some 0x0312000000012345
unfolding mips64_r_info_ext buf_read_une buf_write_ne
ext_lsb = refl

mips64_r_info_ext-HasParts_example :
    (info : ℕ) × (mips64_r_info_ext msb 0x12345 0 3 18 0 ≡ some info)
    × HasParts msb 0x12345 0 3 18 0 info
mips64_r_info_ext-HasParts_example =
    mips64_r_info_ext-HasParts 0x12345 0 3 18 0 (omega arith) (omega arith) (omega arith)
      (omega arith) (omega arith) msb

abbrev mips_object : Dso
mips_object = record {
  elf64 = true;
  e_data = msb;
  e_type = 3;
  e_machine = 8;
  e_entry = 0;
  phdr = [];
  shdr = [];
  scn = [];
  lastscn = 0;
  base = 0;
  end = 0;
  adjust = [];
  dirty = [];
}
