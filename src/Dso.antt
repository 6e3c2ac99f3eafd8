-- ===== src/Dso.antt =====
-- src/dso.c and the `DSO` of src/prelink.h: an opened object, its section headers, the section of
-- an address, and the list of the adjustments that have been made to its addresses.
pub mod Sections
pub mod Adjust
pub mod Record
pub mod Segments
mod Tests
use prelink_cross.Base.{
  ℕ, zero, suc, ◌+◌, ◌-◌, ◌%◌, ◌^◌, Bool, true, false, ◌&&◌, ◌||◌, not, Option, none, some, List,
  [], ◌∷◌, map, bit_and, ltb, leb, ◌==◌, if◌then◌else◌, get_elem?, add64, sub64, u32,
}
use prelink_cross.Bytes.{ByteOrder}

-- `GElf_Shdr`, the fields that the modelled code reads. `name` is the string at `sh_name` in the
-- section of section names.
pub record Shdr : Type 0 where
  pub name : List ℕ
  pub sh_type : ℕ
  pub sh_flags : ℕ
  pub sh_addr : ℕ
  pub sh_offset : ℕ
  pub sh_size : ℕ
  pub sh_addralign : ℕ

-- `Elf_Data`, a block that `elf_getdata` of libelf yields; `bytes` says that `d_type` is
-- ELF_T_BYTE, and `d_buf` holds the `d_size` bytes of the block.
pub record Block : Type 0 where
  pub d_off : ℕ
  pub d_size : ℕ
  pub bytes : Bool
  pub d_buf : List ℕ

-- `GElf_Phdr`.
pub record Phdr : Type 0 where
  pub p_type : ℕ
  pub p_flags : ℕ
  pub p_offset : ℕ
  pub p_vaddr : ℕ
  pub p_paddr : ℕ
  pub p_filesz : ℕ
  pub p_memsz : ℕ
  pub p_align : ℕ

-- `struct PLAdjust`.
pub record PlAdjust : Type 0 where
  pub start : ℕ
  pub adjust : ℕ

-- `DSO`, the fields that the modelled code uses. `scn` has the blocks of each section, in the order
-- in which `elf_getdata` yields them.
pub record Dso : Type 0 where
  pub elf64 : Bool
  pub e_data : ByteOrder
  pub e_type : ℕ
  pub e_machine : ℕ
  pub e_entry : ℕ
  pub phdr : List Phdr
  pub shdr : List Shdr
  pub scn : List (List Block)
  pub lastscn : ℕ
  pub base : ℕ
  pub end : ℕ
  pub adjust : List PlAdjust
  pub dirty : List ℕ

-- Numbers of the ELF standard.
abbrev pub sht_progbits : ℕ
sht_progbits = 1

abbrev pub sht_nobits : ℕ
sht_nobits = 8

abbrev pub shf_tls : ℕ
shf_tls = 0x400

abbrev pub pt_load : ℕ
pt_load = 1

abbrev pub pt_gnu_stack : ℕ
pt_gnu_stack = 0x6474e551

-- RELOCATE_SCN: a section that is writable, allocated or executable.
abbrev pub relocate_scn : ℕ → Bool
relocate_scn shf = not (bit_and shf 7 == 0)

-- The condition of `addr_to_sec`.
unfoldable pub holds_addr : Shdr → ℕ → Bool
holds_addr s addr =
    relocate_scn s.sh_flags
    && leb s.sh_addr addr
    && ltb addr (add64 s.sh_addr s.sh_size)
    && (not (s.sh_type == sht_nobits) || bit_and s.sh_flags shf_tls == 0)

-- The first section from index `i` on that holds the address.
unfoldable pub find_sec : List Shdr → ℕ → ℕ → Option ℕ
find_sec [] addr i = none
find_sec (s ∷ l) addr i = if holds_addr s addr then some i else find_sec l addr (i + 1)

-- The section that the last search found comes first. -1 is `none`.
abbrev pub last_holds : Dso → ℕ → Bool
last_holds d addr = elim (get_elem? d.shdr d.lastscn) [ none ↦ false | some s ↦ holds_addr s addr ]

unfoldable pub addr_to_sec : Dso → ℕ → Option ℕ × Dso
addr_to_sec d addr =
    if last_holds d addr then (some d.lastscn, d) else elim (find_sec d.shdr addr 0) [
      | none ↦ (none, d)
      | some i ↦ (some i, record d { lastscn = i })
    ]

-- `addr_adjust` of prelink.h.
unfoldable pub addr_adjust : ℕ → ℕ → ℕ → ℕ
addr_adjust addr start adjust = if leb start addr then add64 addr adjust else addr

-- The `assert` of the two functions below; `none` is an abort.
abbrev pub assert_class : Bool → ℕ → Option ℕ
assert_class elf64 addr = if elf64 || addr == u32 addr then some addr else none

unfoldable pub old_to_new : Bool → List PlAdjust → ℕ → Option ℕ
old_to_new elf64 [] addr = some addr
old_to_new elf64 (e ∷ l) addr =
    if leb e.start addr then assert_class elf64 (add64 addr e.adjust) else old_to_new elf64 l addr

unfoldable pub new_to_old : Bool → List PlAdjust → ℕ → Option ℕ
new_to_old elf64 [] addr = some addr
new_to_old elf64 (e ∷ l) addr =
    if leb (add64 e.start e.adjust) addr
    then assert_class elf64 (sub64 addr e.adjust)
    else new_to_old elf64 l addr

pub adjust_old_to_new : Dso → ℕ → Option ℕ
adjust_old_to_new d addr = old_to_new d.elf64 d.adjust addr

pub adjust_new_to_old : Dso → ℕ → Option ℕ
adjust_new_to_old d addr = new_to_old d.elf64 d.adjust addr

abbrev pub bump : PlAdjust → ℕ → PlAdjust
bump e adjust = record e { adjust = add64 e.adjust adjust }

-- The part of `adjust_dso` that records an adjustment, from an old address `start` on. Where the
-- new entry does not go last, `memmove` is told a number of entries and moves as many bytes: the
-- last entry is then left as `realloc` gave it, and the list is undefined. That is `none`.
unfoldable pub insert_adjust : List PlAdjust → ℕ → ℕ → Option (List PlAdjust)
insert_adjust [] start adjust = some (record { start = start; adjust = adjust } ∷ [])
insert_adjust (e ∷ l) start adjust =
    let rest = insert_adjust l start adjust in
    if ltb start e.start
    then elim rest [ none ↦ none | some l' ↦ some (bump e adjust ∷ l') ]
    else if start == e.start
    then some (bump e adjust ∷ l)
    else none

unfoldable pub record_adjust : Dso → ℕ → ℕ → Option Dso
unfolding adjust_new_to_old
record_adjust d start adjust = if start == 0 then some d else elim (adjust_new_to_old d start) [
  | none ↦ none
  | some old ↦ elim (insert_adjust d.adjust old adjust) [
    | none ↦ none
    | some l ↦ some (record d { adjust = l })
  ]
]

-- The `if` ladder of the loop of `adjust_dso` over the program headers; `none` is its last
-- `continue`.
unfoldable pub shift_phdr : ℕ → ℕ → Phdr → Option Phdr
shift_phdr start adjust p =
    if start == 0
    then some (record p { p_vaddr = add64 p.p_vaddr adjust; p_paddr = add64 p.p_paddr adjust })
    else if leb start p.p_vaddr
    then some (record p {
      p_vaddr = add64 p.p_vaddr adjust;
      p_paddr = add64 p.p_paddr adjust;
      p_offset = add64 p.p_offset adjust;
    })
    else if ltb start (add64 p.p_vaddr p.p_filesz)
    then some (record p { p_filesz = add64 p.p_filesz adjust; p_memsz = add64 p.p_memsz adjust })
    else if ltb start (add64 p.p_vaddr p.p_memsz)
    then some (record p { p_memsz = add64 p.p_memsz adjust })
    else none

-- The alignment test behind it; `none` is the error of a PT_LOAD segment that would not be aligned,
-- or the division by a zero `p_align`.
unfoldable pub checked_phdr : Phdr → Option Phdr
checked_phdr p =
    if p.p_type == pt_load && (p.p_align == 0 || not (sub64 p.p_vaddr p.p_offset % p.p_align == 0))
    then none
    else some p

-- One round of that loop.
unfoldable pub adjust_phdr : ℕ → ℕ → Phdr → Option Phdr
adjust_phdr start adjust p =
    if p.p_type == pt_gnu_stack
    then some p
    else elim (shift_phdr start adjust p) [ none ↦ some p | some q ↦ checked_phdr q ]

unfoldable pub adjust_phdrs : ℕ → ℕ → List Phdr → Option (List Phdr)
adjust_phdrs start adjust [] = some []
adjust_phdrs start adjust (p ∷ l) = elim (adjust_phdr start adjust p) [
  | none ↦ none
  | some p' ↦ elim (adjust_phdrs start adjust l) [ none ↦ none | some l' ↦ some (p' ∷ l') ]
]

-- The last loop of `adjust_dso` over the section headers.
unfoldable pub adjust_shdr : ℕ → ℕ → Shdr → Shdr
adjust_shdr start adjust s =
    if relocate_scn s.sh_flags && leb start s.sh_addr
    then record s {
      sh_addr = add64 s.sh_addr adjust;
      sh_offset = if start == 0 then s.sh_offset else add64 s.sh_offset adjust;
    }
    else s
