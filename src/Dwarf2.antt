-- ===== src/Dwarf2.antt =====
-- src/dwarf2.c: the debugging information of an object. A section is the list of its bytes, and a
-- pointer into it is an offset or the list of the bytes from it on.
pub mod Abbrev
pub mod Expressions
pub mod Lists
pub mod Uleb
pub mod ReadBack
pub mod Places
pub mod Rounds
pub mod Meaning
pub mod Tables
pub mod Keeps
pub mod Ends
pub mod ListEnds
pub mod TableEnds
pub mod LineEnds
mod Tests
mod TableTests
use prelink_cross.Base.{
  ℕ, zero, suc, ◌+◌, ◌-◌, ◌^◌, Bool, true, false, Option, none, some, List, [], ◌∷◌, drop, leb,
  ◌==◌, if◌then◌else◌, bit_and, bit_or, u8, u32, ◌<<<◌, ◌>>>◌,
}
use prelink_cross.Bytes.{ByteOrder, lsb, msb, Width, w32, w64, bytes_of, buf_read_une}
use prelink_cross.Dso.{Dso, addr_to_sec}
use prelink_cross.Data.{change_from}

abbrev pub uint_max : ℕ
uint_max = 2 ^ 32 - 1

-- The loop of the macro: `ret`, `shift` and the bytes behind. `none` is a number that does not end
-- in the section. From the sixth byte on `shift` is 35 or more and the shift undefined in C, but
-- then `ret` is not used.
unfoldable pub uleb_loop : List ℕ → ℕ → ℕ → Option (ℕ × ℕ × List ℕ)
uleb_loop [] ret shift = none
uleb_loop (c ∷ r) ret shift =
    let ret' = u32 (bit_or ret (bit_and c 0x7f <<< shift)) in
    let rest = uleb_loop r ret' (shift + 7) in
    if bit_and c 0x80 == 0 then some (ret', shift + 7, r) else rest

unfoldable pub read_uleb128 : List ℕ → Option (ℕ × List ℕ)
read_uleb128 buf = elim (uleb_loop buf 0 0) [
  | none ↦ none
  | some (ret, shift, r) ↦ some (if leb 35 shift then uint_max else ret, r)
]

pub dwarf2_write_le32 : List ℕ → ℕ → Option (List ℕ)
dwarf2_write_le32 (_ ∷ _ ∷ _ ∷ _ ∷ r) val =
    let v = u32 val in some (u8 v ∷ u8 (v >>> 8) ∷ u8 (v >>> 16) ∷ u8 (v >>> 24) ∷ r)
dwarf2_write_le32 _ val = none

pub dwarf2_write_le64 : List ℕ → ℕ → Option (List ℕ)
dwarf2_write_le64 (_ ∷ _ ∷ _ ∷ _ ∷ _ ∷ _ ∷ _ ∷ _ ∷ r) val = some (
    u8 val
    ∷ u8 (val >>> 8)
    ∷ u8 (val >>> 16)
    ∷ u8 (val >>> 24)
    ∷ u8 (val >>> 32)
    ∷ u8 (val >>> 40)
    ∷ u8 (val >>> 48)
    ∷ u8 (val >>> 56)
    ∷ r)
dwarf2_write_le64 _ val = none

pub dwarf2_write_be32 : List ℕ → ℕ → Option (List ℕ)
dwarf2_write_be32 (_ ∷ _ ∷ _ ∷ _ ∷ r) val =
    let v = u32 val in some (u8 (v >>> 24) ∷ u8 (v >>> 16) ∷ u8 (v >>> 8) ∷ u8 v ∷ r)
dwarf2_write_be32 _ val = none

pub dwarf2_write_be64 : List ℕ → ℕ → Option (List ℕ)
dwarf2_write_be64 (_ ∷ _ ∷ _ ∷ _ ∷ _ ∷ _ ∷ _ ∷ _ ∷ r) val = some (
    u8 (val >>> 56)
    ∷ u8 (val >>> 48)
    ∷ u8 (val >>> 40)
    ∷ u8 (val >>> 32)
    ∷ u8 (val >>> 24)
    ∷ u8 (val >>> 16)
    ∷ u8 (val >>> 8)
    ∷ u8 val
    ∷ r)
dwarf2_write_be64 _ val = none

-- The object, and whether `ptr_size` is 8, with `do_read_ptr` and `write_ptr` set for it, and
-- not 4.
pub record Debug : Type 0 where
  pub dso : Dso
  pub wide : Bool

abbrev pub ptr_width : Bool → Width
ptr_width true = w64
ptr_width false = w32

abbrev pub ptr_size : Debug → ℕ
ptr_size d = bytes_of (ptr_width d.wide)

unfoldable pub dwarf2_write_ptr : Bool → ByteOrder → List ℕ → ℕ → Option (List ℕ)
unfolding dwarf2_write_le32 dwarf2_write_le64 dwarf2_write_be32 dwarf2_write_be64
dwarf2_write_ptr false lsb = dwarf2_write_le32
dwarf2_write_ptr true lsb = dwarf2_write_le64
dwarf2_write_ptr false msb = dwarf2_write_be32
dwarf2_write_ptr true msb = dwarf2_write_be64

unfoldable pub read_ptr : Debug → List ℕ → ℕ → Option ℕ
read_ptr d buf ptr = buf_read_une d.dso.e_data (ptr_width d.wide) (drop ptr buf)

unfoldable pub write_ptr : Debug → List ℕ → ℕ → ℕ → Option (List ℕ)
write_ptr d buf ptr val = change_from buf ptr (λ b. dwarf2_write_ptr d.wide d.dso.e_data b val)

-- `addr_to_sec (dso, addr) != -1`. The section that the search found last, which it records, has
-- no effect on that.
unfoldable pub in_section : Debug → ℕ → Bool
in_section d addr = elim (addr_to_sec d.dso addr).0 [ none ↦ false | some n ↦ true ]

-- The condition under which an address moves.
abbrev pub moves : Debug → ℕ → ℕ → Bool
moves d start addr = if leb start addr then in_section d addr else false

-- `struct cu_data`; `none` is ~0.
pub record CuData : Type 0 where
  pub cu_entry_pc : Option ℕ
  pub cu_low_pc : Option ℕ
  pub cu_version : ℕ

-- What a walk returns: 0 with the changed section, 1 after a message; `stuck` is a model that ran
-- out of fuel, and `undefined_` a failing `assert` or an access past the end of the section.
pub data Walk (A : Type 0) : Type 0 where
  ok : A → Walk A
  failed : Walk A
  undefined_ : Walk A
  stuck : Walk A

infixl 5 ◌then_◌
abbrev pub ◌then_◌ : {A B : Type 0} → Walk A → (A → Walk B) → Walk B
◌then_◌ (ok a) f = f a
◌then_◌ failed f = failed
◌then_◌ undefined_ f = undefined_
◌then_◌ stuck f = stuck

abbrev pub of_option : {A : Type 0} → Option A → Walk A
of_option none = undefined_
of_option (some a) = ok a
