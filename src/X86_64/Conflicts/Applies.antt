-- ===== src/X86_64/Conflicts/Applies.antt =====
-- What a conflict does when it is applied.
use prelink_cross.Base.{ℕ, ◌≤◌, ◌≡◌, ◌≢◌, Bool, false, Option, none, some, List, arith, length, ◌⊎◌}
use prelink_cross.Bytes.{lsb, w32, w64}
use prelink_cross.Bytes.RoundTrip.{buf_write-ne-none}
use prelink_cross.Reloc.{Rela, Conflict, Objects, gelf_r_type, conflict_lookup_value}
use prelink_cross.X86_64.{
  RelocType, none_, r64, pc32, glob_dat, jump_slot, r32, irelative, type_of, buf_write_leclass,
}
use prelink_cross.X86_64.Prelink.{Resolved, aborts, apply_type, apply_rela, apply_conflict_rela}
use prelink_cross.X86_64.Conflicts.{added, conflict_type, prelink_conflict_rela}

-- The types that ask for a word that depends on the value of a symbol and on nothing else.
abbrev pub IsWord : RelocType → Type 0
IsWord glob_dat = Unit {0}
IsWord jump_slot = Unit {0}
IsWord r64 = Unit {0}
IsWord r32 = Unit {0}
IsWord pc32 = Unit {0}
IsWord _ = ⊥

-- A symbol that resolves to the value that the conflict looked up.
abbrev pub resolve_to : ℕ → ℕ → ℕ → Resolved
resolve_to value sym type = record { value = value; resolvetls = none }

module _ (elf64 same_dso : Bool) (curtls : ℕ) (objects : Objects) (rela r : Rela) (c : Conflict)
    (buf : List ℕ) (dest : ℕ) where
  applies :
      (t : RelocType)
      → IsWord t
      → c.ifunc ≡ false
      → conflict_type elf64 same_dso curtls objects t rela (some c) ≡ added r
      → (apply_conflict_rela elf64 r buf dest).0
        ≡ apply_type elf64 (resolve_to (conflict_lookup_value objects c)) t rela buf
  unfolding conflict_type apply_conflict_rela apply_type type_of buf_write_leclass
  applies glob_dat w i e = ground arith
  applies jump_slot w i e = ground arith
  applies r64 w i e = ground arith
  applies r32 w i e = ground arith
  applies pc32 w i e = ground arith
  applies _ w i e = absurd w

-- Whatever relocation is added, applying it with room for eight bytes does not abort.
module _ (elf64 same_dso : Bool) (curtls : ℕ) (objects : Objects) (rela r : Rela) (buf : List ℕ)
    (dest : ℕ) (room : 8 ≤ length buf) where
  -- The types that apply_conflict_rela has a case for.
  abbrev Applicable : Type 0
  Applicable =
      (type_of (gelf_r_type r.r_info) ≡ r64)
      ⊎ (type_of (gelf_r_type r.r_info) ≡ r32)
      ⊎ (type_of (gelf_r_type r.r_info) ≡ jump_slot)
      ⊎ (type_of (gelf_r_type r.r_info) ≡ irelative)

  added-Applicable :
      (t : RelocType) (c : Option Conflict)
      → conflict_type elf64 same_dso curtls objects t rela c ≡ added r
      → Applicable
  unfolding conflict_type type_of
  added-Applicable none_ c e = absurd (cc e)
  added-Applicable t none e = ground arith
  added-Applicable t (some c) e = ground arith

  Applicable-ne-aborts : Applicable → (apply_conflict_rela elf64 r buf dest).0 ≢ aborts
  unfolding apply_conflict_rela buf_write_leclass
  Applicable-ne-aborts a = ground (
    arith,
    buf_write-ne-none lsb w64 buf r.r_addend room,
    buf_write-ne-none lsb w32 buf r.r_addend (omega arith),
  )

module _ (elf64 same_dso : Bool) (curtls : ℕ) (objects : Objects) (rela r : Rela) (c : Conflict)
    (buf : List ℕ) (dest : ℕ) where
  same_offset :
      (t : RelocType)
      → conflict_type elf64 same_dso curtls objects t rela (some c) ≡ added r
      → r.r_offset ≡ rela.r_offset
  unfolding conflict_type
  same_offset none_ e = absurd (cc e)
  same_offset t e = ground arith

  -- For a relocation that asks for a word, and a symbol that is no IFUNC: the relocation that
  -- x86_64_prelink_conflict_rela adds is at the same offset, and applying it gives, byte by byte,
  -- what applying the original one gives when its symbol resolves to the value of the conflict.
  pub prelink_conflict_rela-apply :
      IsWord (type_of (gelf_r_type rela.r_info))
      → c.ifunc ≡ false
      → prelink_conflict_rela elf64 same_dso curtls objects rela (some c) ≡ added r
      → (r.r_offset ≡ rela.r_offset)
        × ((apply_conflict_rela elf64 r buf dest).0
            ≡ apply_rela elf64 (resolve_to (conflict_lookup_value objects c)) rela buf)
  unfolding prelink_conflict_rela apply_rela
  prelink_conflict_rela-apply w i e = (
    same_offset (type_of (gelf_r_type rela.r_info)) e,
    applies elf64 same_dso curtls objects rela r c buf dest (type_of (gelf_r_type rela.r_info)) w i
        e,
  )

-- A relocation that x86_64_prelink_conflict_rela adds, with or without a conflict, is of a type that
-- x86_64_apply_conflict_rela has a case for: with room for eight bytes it does not abort.
pub apply_conflict_rela-ne-aborts :
    (elf64 same_dso : Bool) (curtls : ℕ) (objects : Objects) (rela r : Rela) (c : Option Conflict)
    (buf : List ℕ) (dest : ℕ)
    → 8 ≤ length buf
    → prelink_conflict_rela elf64 same_dso curtls objects rela c ≡ added r
    → (apply_conflict_rela elf64 r buf dest).0 ≢ aborts
unfolding prelink_conflict_rela
apply_conflict_rela-ne-aborts elf64 same_dso curtls objects rela r c buf dest room e =
    Applicable-ne-aborts elf64 same_dso curtls objects rela r buf dest room (
      added-Applicable elf64 same_dso curtls objects rela r buf dest room
        (type_of (gelf_r_type rela.r_info)) c e)
