-- ===== src/RelocInfo/RoundTrip.antt =====
-- The parts of an `r_info` that was put together from them.
use prelink_cross.Base.{
  ℕ, ◌^◌, ◌<◌, ◌≡◌, refl, ap, ◌∙◌, some, List, [], ◌∷◌, arith, u8, ◌>>>◌, ◌==◌, if◌then◌else◌,
  Bool-cases, inl, inr,
}
use prelink_cross.Bytes.{ByteOrder, lsb, msb, w32, w64, buf_read_une, buf_write_ne}
use prelink_cross.Bytes.RoundTrip.{buf_read-written}
use prelink_cross.Bytes.Restore.{AreBytes, Restores, buf_write-buf_read}
use prelink_cross.Dso.{Dso}
use prelink_cross.RelocInfo.{
  mips64_r_sym, mips64_byte, mips64_r_info_ext, is_mips64, reloc_r_sym, reloc_r_type, reloc_r_info,
  empty_union, r_mips_rel32, r_mips_glob_dat, r_mips_64, r_mips_none, rss_undef,
}

-- The bytes of the union that holds the five parts.
abbrev union_of : ByteOrder → ℕ → ℕ → ℕ → ℕ → ℕ → List ℕ
union_of lsb sym ssym type type2 type3 =
    u8 sym ∷ u8 (sym >>> 8) ∷ u8 (sym >>> 16) ∷ u8 (sym >>> 24) ∷ ssym ∷ type3 ∷ type2 ∷ type ∷ []
union_of msb sym ssym type type2 type3 =
    u8 (sym >>> 24) ∷ u8 (sym >>> 16) ∷ u8 (sym >>> 8) ∷ u8 sym ∷ ssym ∷ type3 ∷ type2 ∷ type ∷ []

-- The five parts of `r_info`.
pub record HasParts (o : ByteOrder) (sym ssym type type2 type3 info : ℕ) : Type 0 where
  pub has_sym : mips64_r_sym o info ≡ some sym
  pub has_ssym : mips64_byte o 4 info ≡ some ssym
  pub has_type : mips64_byte o 7 info ≡ some type
  pub has_type2 : mips64_byte o 6 info ≡ some type2
  pub has_type3 : mips64_byte o 5 info ≡ some type3

module _ (sym ssym type type2 type3 : ℕ) (sym_lt : sym < 2 ^ 32) (ssym_lt : ssym < 256)
    (type_lt : type < 256) (type2_lt : type2 < 256) (type3_lt : type3 < 256) where
  abbrev Built : ByteOrder → Type 0
  Built o =
      (info : ℕ) × (mips64_r_info_ext o sym ssym type type2 type3 ≡ some info)
      × HasParts o sym ssym type type2 type3 info

  union-AreBytes : (o : ByteOrder) → AreBytes (union_of o sym ssym type type2 type3)
  union-AreBytes lsb = omega arith
  union-AreBytes msb = omega arith

  read_sym : (o : ByteOrder) → buf_read_une o w32 (union_of o sym ssym type type2 type3) ≡ some sym
  unfolding buf_read_une buf_write_ne
  read_sym lsb = buf_read-written lsb w32 empty_union sym _ sym_lt refl
  read_sym msb = buf_read-written msb w32 empty_union sym _ sym_lt refl

  -- A write of all eight bytes does not depend on what was there.
  write_over :
      (o : ByteOrder) (info : ℕ)
      → buf_write_ne o w64 (union_of o sym ssym type type2 type3) info
        ≡ buf_write_ne o w64 empty_union info
  unfolding buf_write_ne
  write_over lsb info = refl
  write_over msb info = refl

  reads_union :
      (o : ByteOrder)
      → mips64_r_info_ext o sym ssym type type2 type3
        ≡ buf_read_une o w64 (union_of o sym ssym type type2 type3)
  unfolding mips64_r_info_ext buf_write_ne
  reads_union lsb = refl
  reads_union msb = refl

  parts :
      (o : ByteOrder) (info : ℕ)
      → buf_write_ne o w64 empty_union info ≡ some (union_of o sym ssym type type2 type3)
      → HasParts o sym ssym type type2 type3 info
  unfolding mips64_r_sym mips64_byte
  parts lsb info e = record {
    has_sym = rw (e, mips64_r_sym) (read_sym lsb);
    has_ssym = rw (e, mips64_byte) refl;
    has_type = rw (e, mips64_byte) refl;
    has_type2 = rw (e, mips64_byte) refl;
    has_type3 = rw (e, mips64_byte) refl;
  }
  parts msb info e = record {
    has_sym = rw (e, mips64_r_sym) (read_sym msb);
    has_ssym = rw (e, mips64_byte) refl;
    has_type = rw (e, mips64_byte) refl;
    has_type2 = rw (e, mips64_byte) refl;
    has_type3 = rw (e, mips64_byte) refl;
  }

  Built-from : (o : ByteOrder) → Restores o w64 (union_of o sym ssym type type2 type3) → Built o
  Built-from o (info, reads, lt, writes) =
      (info, reads_union o ∙ reads, parts o info (sym_path o info writes))
    where
      sym_path :
          (o : ByteOrder) (info : ℕ)
          → buf_write_ne o w64 (union_of o sym ssym type type2 type3) info
            ≡ some (union_of o sym ssym type type2 type3)
          → buf_write_ne o w64 empty_union info ≡ some (union_of o sym ssym type type2 type3)
      sym_path o info e = cc (e, write_over o info)

  mips64-Built : (o : ByteOrder) → Built o
  mips64-Built lsb =
      Built-from lsb (buf_write-buf_read lsb w64 _ (union-AreBytes lsb) (omega arith))
  mips64-Built msb =
      Built-from msb (buf_write-buf_read msb w64 _ (union-AreBytes msb) (omega arith))

  -- In both byte orders, the five parts that 64-bit MIPS puts into an `r_info` are the ones that the
  -- functions take out of it, for a symbol of 32 bits and bytes.
  pub mips64_r_info_ext-HasParts :
      (o : ByteOrder)
      → (info : ℕ) × (mips64_r_info_ext o sym ssym type type2 type3 ≡ some info)
        × HasParts o sym ssym type type2 type3 info
  mips64_r_info_ext-HasParts o = mips64-Built o

-- In any object, the symbol and the type of an `r_info` that `reloc_r_info` made are the given ones,
-- for a symbol of 32 bits and a type of one byte.
pub reloc_r_sym-reloc_r_info :
    (d : Dso) (sym type : ℕ)
    → sym < 2 ^ 32
    → type < 256
    → (info : ℕ) × (reloc_r_info d sym type ≡ some info)
      × (reloc_r_sym d info ≡ some sym)
      × (reloc_r_type d info ≡ some type)
unfolding reloc_r_info reloc_r_sym reloc_r_type
reloc_r_sym-reloc_r_info d sym type ls lt = elim (Bool-cases (is_mips64 d)) [
  | inl c ↦
      let same : u8 type ≡ type = omega arith in
      let second =
        if type == r_mips_rel32
        then r_mips_64
        else if type == r_mips_glob_dat
        then r_mips_64
        else r_mips_none in
      let (info, made, p) =
        mips64-Built sym rss_undef type second r_mips_none ls (omega arith) lt (ground arith)
          (omega arith) d.e_data in
      rw c (
        info,
        ap (λ t. mips64_r_info_ext d.e_data sym rss_undef t second r_mips_none) same ∙ made,
        p.has_sym,
        p.has_type,
      )
  | inr c ↦ rw c (_, refl, ap some (omega arith), ap some (omega arith))
]
