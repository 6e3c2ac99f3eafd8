-- ===== src/X86_64/Prelink.antt =====
-- x86_64_prelink_rela, which relocates a shared object in place, x86_64_apply_rela, which does so
-- in a copy of a part of it, x86_64_apply_conflict_rela and x86_64_arch_prelink.
pub mod Agree
use prelink_cross.Base.{
  ℕ, ◌+◌, ◌^◌, Bool, true, false, not, Option, none, some, List, [], ◌∷◌, ◌++◌, drop, ◌==◌,
  if◌then◌else◌, add64, sub64,
}
use prelink_cross.Bytes.{ByteOrder, lsb, w32, w64, buf_write_ne}
use prelink_cross.Dso.{Dso, addr_to_sec}
use prelink_cross.Data.{M, ◌>>=◌, ◌>>◌, pure, write}
use prelink_cross.Reloc.{Rela, Tls, gelf_r_sym, gelf_r_type, gelf_r_info}
use prelink_cross.X86_64.{
  RelocType, none_, r64, pc32, copy, glob_dat, jump_slot, relative, r32, dtpmod64, dtpoff64,
  tpoff64, irelative, unknown, type_of, write_leclass, buf_write_leclass, find_plt,
}

abbrev pub et_exec : ℕ
et_exec = 2

-- What `info->resolve` returns, and the `resolvetls` that it leaves in `info`.
pub record Resolved : Type 0 where
  pub value : ℕ
  pub resolvetls : Option Tls

-- The word that a relocation asks for, `value + r_addend`.
abbrev pub target : (ℕ → ℕ → Resolved) → Rela → ℕ
target resolve rela =
    add64 (resolve (gelf_r_sym rela.r_info) (gelf_r_type rela.r_info)).value rela.r_addend

module _ (host : ByteOrder) (resolve : ℕ → ℕ → Resolved) where
  -- The cases of the two `switch`es of x86_64_prelink_rela. 0 is `true`, and 1, after a message, is
  -- `false`; what the writes return is not looked at.
  unfoldable pub prelink_type : RelocType → Rela → M Bool
  prelink_type none_ rela = pure true
  prelink_type irelative rela = pure true
  prelink_type relative rela = write_leclass host rela.r_offset rela.r_addend >> pure true
  prelink_type glob_dat rela = write_leclass host rela.r_offset (target resolve rela) >> pure true
  prelink_type jump_slot rela = write_leclass host rela.r_offset (target resolve rela) >> pure true
  prelink_type r64 rela = write host lsb w64 rela.r_offset (target resolve rela) >> pure true
  prelink_type r32 rela = write host lsb w32 rela.r_offset (target resolve rela) >> pure true
  prelink_type pc32 rela =
      write host lsb w32 rela.r_offset (sub64 (target resolve rela) rela.r_offset) >> pure true
  prelink_type dtpoff64 rela = write host lsb w64 rela.r_offset (target resolve rela) >> pure true
  prelink_type dtpmod64 rela = λ d. pure (not (d.e_type == et_exec)) d
  prelink_type tpoff64 rela = λ d.
      let tls = (resolve (gelf_r_sym rela.r_info) (gelf_r_type rela.r_info)).resolvetls in
      if d.e_type == et_exec
      then elim tls [
        | none ↦ pure true d
        | some t ↦
            (write host lsb w64 rela.r_offset (sub64 (target resolve rela) t.offset) >> pure true) d
      ]
      else pure true d
  prelink_type copy rela = λ d. pure (d.e_type == et_exec) d
  prelink_type (unknown _) rela = pure false

  unfoldable pub prelink_rela : Rela → M Bool
  unfolding prelink_type
  prelink_rela rela = prelink_type (type_of (gelf_r_type rela.r_info)) rela

-- What a function on a buffer returns: 0 with the buffer, another code with the buffer, or an
-- abort, also for a write past the end of the buffer.
pub data Applied : Type 0 where
  done : List ℕ → Applied
  failed : ℕ → Applied
  aborts : Applied

abbrev pub of_write : Option (List ℕ) → Applied
of_write none = aborts
of_write (some buf) = done buf

module _ (elf64 : Bool) (resolve : ℕ → ℕ → Resolved) where
  unfoldable pub apply_type : RelocType → Rela → List ℕ → Applied
  apply_type none_ rela buf = done buf
  apply_type glob_dat rela buf = of_write (buf_write_leclass elf64 buf (target resolve rela))
  apply_type jump_slot rela buf = of_write (buf_write_leclass elf64 buf (target resolve rela))
  apply_type r64 rela buf = of_write (buf_write_ne lsb w64 buf (target resolve rela))
  apply_type r32 rela buf = of_write (buf_write_ne lsb w32 buf (target resolve rela))
  apply_type pc32 rela buf =
      of_write (buf_write_ne lsb w32 buf (sub64 (target resolve rela) rela.r_offset))
  apply_type copy rela buf = aborts
  apply_type _ rela buf = failed 1

  unfoldable pub apply_rela : Rela → List ℕ → Applied
  unfolding apply_type
  apply_rela rela buf = apply_type (type_of (gelf_r_type rela.r_info)) rela buf

-- `prelink_conflict_add_rela` adds a relocation to the conflicts; here they are returned with the
-- result. The code 5 means that a conflict has to be put off.
unfoldable pub apply_conflict_rela : Bool → Rela → List ℕ → ℕ → Applied × List Rela
apply_conflict_rela elf64 rela buf dest_addr = elim (type_of (gelf_r_type rela.r_info)) [
  | glob_dat ↦ (of_write (buf_write_leclass elf64 buf rela.r_addend), [])
  | jump_slot ↦ (of_write (buf_write_leclass elf64 buf rela.r_addend), [])
  | r64 ↦ (of_write (buf_write_ne lsb w64 buf rela.r_addend), [])
  | irelative ↦ if dest_addr == 0 then (failed 5, []) else (
    done buf,
    record { r_offset = dest_addr; r_info = gelf_r_info 0 37; r_addend = rela.r_addend } ∷ [],
  )
  | r32 ↦ (of_write (buf_write_ne lsb w32 buf rela.r_addend), [])
  | _ ↦ (aborts, [])
]

-- `pltgot` is `dso->info[DT_PLTGOT]`. `none` is also the failing `assert` of an object without .plt.
unfoldable pub arch_prelink : ByteOrder → ℕ → M Bool
arch_prelink host pltgot d =
    let (sec, d') = addr_to_sec d pltgot in
    if pltgot == 0 then pure true d else elim sec [
      | none ↦ pure false d'
      | some _ ↦ elim (find_plt (drop 1 d'.shdr)) [
        | none ↦ none
        | some plt ↦ (write host lsb w64 (add64 pltgot 8) (add64 plt.sh_addr 0x16) >> pure true) d'
      ]
    ]
