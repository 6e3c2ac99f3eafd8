-- ===== src/X86_64/Prelink/Agree.antt =====
-- A relocation in a copy of memory and in place: x86_64_apply_rela and x86_64_prelink_rela.
use prelink_cross.Base.{
  ℕ, ◌≡◌, ◌≢◌, refl, Bool, true, Option, none, some, List, arith, if◌then◌else◌, sub64, Bool-cases,
  inl, inr,
}
use prelink_cross.Bytes.{ByteOrder, lsb, Width, w32, w64, bytes_of, buf_write_ne}
use prelink_cross.Dso.{Dso}
use prelink_cross.Data.{◌>>◌, pure, write}
use prelink_cross.Reloc.{Rela, gelf_r_type}
use prelink_cross.X86_64.{
  RelocType, none_, r64, pc32, glob_dat, jump_slot, r32, type_of, write_leclass, buf_write_leclass,
  class_width, reloc_size, x32_reloc_size,
}
use prelink_cross.X86_64.Prelink.{
  Resolved, target, prelink_type, prelink_rela, done, of_write, apply_type, apply_rela,
}

-- The size that the architecture tells the generic code: x32 has a function of its own.
abbrev pub size_of : Bool → RelocType → ℕ
size_of elf64 t = if elf64 then reloc_size t else x32_reloc_size t

-- Both store one word, of the size of the relocation.
pub record SameWord (host : ByteOrder) (resolve : ℕ → ℕ → Resolved) (t : RelocType) (rela : Rela)
    (d : Dso) (buf buf' : List ℕ) : Type 0 where
  pub width : Width
  pub word : ℕ
  pub applied : buf_write_ne lsb width buf word ≡ some buf'
  pub prelinked :
      prelink_type host resolve t rela d ≡ (write host lsb width rela.r_offset word >> pure true) d
  pub size : bytes_of width ≡ size_of d.elf64 t

of_write-done : (o : Option (List ℕ)) (buf : List ℕ) → of_write o ≡ done buf → o ≡ some buf
of_write-done none buf e = absurd (cc e)
of_write-done (some b) buf e = ground arith

module _ (host : ByteOrder) (resolve : ℕ → ℕ → Resolved) (rela : Rela) (d : Dso)
    (buf buf' : List ℕ) where
  -- A word of the class, eight bytes or four.
  class_word :
      (t : RelocType) (word : ℕ)
      → buf_write_leclass d.elf64 buf word ≡ some buf'
      → prelink_type host resolve t rela d ≡ (write_leclass host rela.r_offset word >> pure true) d
      → size_of d.elf64 t ≡ (if d.elf64 then 8 else 4)
      → SameWord host resolve t rela d buf buf'
  unfolding buf_write_leclass write_leclass
  class_word t word e p s = record {
    width = class_width d.elf64;
    word = word;
    applied = e;
    prelinked = p;
    size = elim (Bool-cases d.elf64) [ inl c ↦ ground arith | inr c ↦ ground arith ];
  }

  same_word :
      (t : RelocType)
      → t ≢ none_
      → apply_type d.elf64 resolve t rela buf ≡ done buf'
      → SameWord host resolve t rela d buf buf'
  unfolding apply_type prelink_type reloc_size x32_reloc_size
  same_word none_ ne h = absurd (ne refl)
  same_word glob_dat ne h = class_word glob_dat _ (of_write-done _ buf' h) refl (ground arith)
  same_word jump_slot ne h = class_word jump_slot _ (of_write-done _ buf' h) refl (ground arith)
  same_word r64 ne h = record {
    width = w64;
    word = target resolve rela;
    applied = of_write-done _ buf' h;
    prelinked = refl;
    size = ground arith;
  }
  same_word r32 ne h = record {
    width = w32;
    word = target resolve rela;
    applied = of_write-done _ buf' h;
    prelinked = refl;
    size = ground arith;
  }
  same_word pc32 ne h = record {
    width = w32;
    word = sub64 (target resolve rela) rela.r_offset;
    applied = of_write-done _ buf' h;
    prelinked = refl;
    size = ground arith;
  }
  same_word _ ne h = absurd (cc h)

-- A relocation other than R_X86_64_NONE that is applied without an error to a copy of memory
-- stores there the word that relocating the object in place stores at `r_offset`, little-endian,
-- and as many bytes as the size function of the class says.
pub apply_rela-prelink_rela :
    (host : ByteOrder) (resolve : ℕ → ℕ → Resolved) (rela : Rela) (d : Dso) (buf buf' : List ℕ)
    → type_of (gelf_r_type rela.r_info) ≢ none_
    → apply_rela d.elf64 resolve rela buf ≡ done buf'
    → (w : Width) × (word : ℕ) × (buf_write_ne lsb w buf word ≡ some buf')
      × (prelink_rela host resolve rela d ≡ (write host lsb w rela.r_offset word >> pure true) d)
      × (bytes_of w ≡ size_of d.elf64 (type_of (gelf_r_type rela.r_info)))
unfolding apply_rela prelink_rela
apply_rela-prelink_rela host resolve rela d buf buf' ne h =
    let s = same_word host resolve rela d buf buf' (type_of (gelf_r_type rela.r_info)) ne h in
    (s.width, s.word, s.applied, s.prelinked, s.size)
