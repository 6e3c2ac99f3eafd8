-- ===== src/Space.antt =====
-- src/space.c: where a section that a program needs for prelinking goes. The first way of
-- find_readonly_space is here: the section's old address. The others are in the children Gap, Extend,
-- LowerBase and NewSegment.
pub mod Align
pub mod Extend
pub mod Find
pub mod Gap
pub mod Loadable
pub mod LostEntries
pub mod LowerBase
pub mod NewSegment
pub mod Padding
pub mod Room
pub mod Scan
pub mod Shift
pub mod Sides
pub mod Unaligned
pub mod Unplaced
mod Tests
use prelink_cross.Base.{
  ℕ, zero, suc, ◌+◌, ◌-◌, ◌*◌, ◌^◌, Bool, true, false, ◌&&◌, ◌||◌, not, Option, none, some, List,
  [], ◌∷◌, ◌++◌, map, length, take, drop, get_elem?, set, bit_and, bit_xor, ltb, leb, ◌==◌,
  if◌then◌else◌, add64, sub64, u64, not64,
}
use prelink_cross.Dso.{Shdr, Phdr, sht_progbits, sht_nobits, shf_tls, pt_load, relocate_scn}
use prelink_cross.Moves.{raise, lower}
use prelink_cross.X86_64.{same_name, plt_name}

-- The headers that find_readonly_space is given, with their counts as lengths, the class of the
-- object, and the fields of the `struct readonly_adjust` but `move`; in `new`, -1 is `none`.
pub record Image : Type 0 where
  pub elf64 : Bool
  pub e_phoff : ℕ
  pub e_phentsize : ℕ
  pub e_shoff : ℕ
  pub phdr : List Phdr
  pub shdr : List Shdr
  pub new : List (Option ℕ)
  pub basemove_adjust : ℕ
  pub basemove_end : ℕ
  pub moveend : ℕ
  pub move2 : Bool

-- `(x + align - 1) & ~(align - 1)`.
unfoldable pub round_up : ℕ → ℕ → ℕ
round_up x align = bit_and (sub64 (add64 x align) 1) (not64 (sub64 align 1))

-- The `memmove`, the counts, and the store of the section into the gap.
unfoldable pub insert_readonly_section : Image → ℕ → Shdr → Image
insert_readonly_section im n s = record im {
  shdr = take n im.shdr ++ s ∷ drop n im.shdr;
  new = map (raise n) im.new;
}

-- The last place of `n` in `new`, from place `i` on.
unfoldable pub last_place : ℕ → List (Option ℕ) → ℕ → Option ℕ → Option ℕ
last_place n [] i ret = ret
last_place n (none ∷ l) i ret = last_place n l (suc i) ret
last_place n (some j ∷ l) i ret = last_place n l (suc i) (if j == n then some i else ret)

unfoldable pub remove_readonly_section : Image → ℕ → Option ℕ × Image
remove_readonly_section im n = (
  last_place n im.new 0 none,
  record im { shdr = take n im.shdr ++ drop (suc n) im.shdr; new = map (lower n) im.new },
)

-- adjust_nonalloc of src/dso.c. The section numbered `i` has to move if it lies behind `start`, or
-- there and is not before `first`.
abbrev pub is_behind : ℕ → ℕ → ℕ → Shdr → Bool
is_behind first start i s =
    not (relocate_scn s.sh_flags || s.sh_type == 0)
    && (ltb start s.sh_offset || s.sh_offset == start && leb first i)

abbrev pub padded : ℕ → ℕ → ℕ
padded adjust align = if bit_and adjust (sub64 align 1) == 0 then adjust else round_up adjust align

-- Its first loop, from section `i` on.
unfoldable pub aligned_adjust : ℕ → ℕ → ℕ → List Shdr → ℕ → ℕ
aligned_adjust first start i [] adjust = adjust
aligned_adjust first start i (s ∷ l) adjust =
    aligned_adjust first start (suc i) l
      (if is_behind first start i s then padded adjust s.sh_addralign else adjust)

-- Its second loop.
unfoldable pub move_behind : ℕ → ℕ → ℕ → ℕ → List Shdr → List Shdr
move_behind first start adjust i [] = []
move_behind first start adjust i (s ∷ l) =
    (if is_behind first start i s then record s { sh_offset = add64 s.sh_offset adjust } else s)
    ∷ move_behind first start adjust (suc i) l

-- Both loops start at section 1.
abbrev pub from_1 : {A : Type 0} → (List A → List A) → List A → List A
from_1 f [] = []
from_1 f (x ∷ l) = x ∷ f l

-- The alignment of the table of the section headers, which is that of an address.
unfoldable pub table_adjust : Image → ℕ → ℕ → ℕ
table_adjust im start by =
    if leb start im.e_shoff then padded by (if im.elf64 then 8 else 4) else by

unfoldable pub adjust_nonalloc : Image → ℕ → ℕ → ℕ → Image
adjust_nonalloc im first start adjust =
    let by = aligned_adjust first start 1 (drop 1 im.shdr) adjust in
    let by' = table_adjust im start by in
    record im {
      e_shoff = if leb start im.e_shoff then add64 im.e_shoff by' else im.e_shoff;
      shdr = from_1 (move_behind first start by' 1) im.shdr;
    }

-- SHF_ALLOC.
abbrev pub is_alloc : Shdr → Bool
is_alloc s = not (bit_and s.sh_flags 2 == 0)

-- A PT_LOAD segment with PF_R and without PF_W.
abbrev pub is_readonly : Phdr → Bool
is_readonly p = p.p_type == pt_load && bit_and p.p_flags 6 == 4

abbrev pub section_end : Shdr → ℕ
section_end s = add64 s.sh_addr s.sh_size

abbrev pub file_end : Phdr → ℕ
file_end p = add64 p.p_vaddr p.p_filesz

-- The offset in the file of an address of the segment.
abbrev pub offset_in : Phdr → ℕ → ℕ
offset_in p addr = add64 (sub64 addr p.p_vaddr) p.p_offset

-- The first element that passes a test.
abbrev pub first_such : {A : Type 0} → (A → Bool) → List A → Option A
first_such test [] = none
first_such test (x ∷ l) = if test x then some x else first_such test l

-- The first allocated section that is not below the address, if there is room before it; `prev` is
-- the section before number `j`.
unfoldable pub gap_at : Shdr → Shdr → List Shdr → ℕ → Option ℕ
gap_at add prev [] j = none
gap_at add prev (s ∷ l) j =
    if is_alloc s && leb add.sh_addr s.sh_addr
    then if leb (section_end add) s.sh_addr && leb (section_end prev) add.sh_addr
      then some j
      else none
    else gap_at add s l (suc j)

-- The first way: the address that the section has.
unfoldable pub at_current : Shdr → Image → Option (ℕ × Image)
at_current add im =
    if add.sh_addr == 0
    then none
    else elim (first_such
        (λ p. is_readonly p && leb p.p_vaddr add.sh_addr && leb (section_end add) (file_end p))
        im.phdr) [
          | none ↦ none
          | some p ↦ elim im.shdr [
            | [] ↦ none
            | s ∷ l ↦ elim (gap_at add s l 1) [
              | none ↦ none
              | some j ↦ some (
                j,
                insert_readonly_section im j (record add { sh_offset = offset_in p add.sh_addr }),
              )
            ]
          ]
        ]
