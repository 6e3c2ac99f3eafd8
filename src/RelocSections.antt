-- ===== src/RelocSections.antt =====
-- `find_reloc_sections` of src/reloc.c: which sections hold the relocations that the tags of the
-- dynamic section name.
pub mod Surrounded
pub mod FindsSections
pub mod Update
mod Tests
use prelink_cross.Base.{
  ℕ, zero, suc, ◌+◌, ◌-◌, Bool, true, false, ◌&&◌, ◌||◌, not, Option, none, some, List, [], ◌∷◌,
  get_elem?, leb, ◌==◌, if◌then◌else◌, add64, sub64,
}
use prelink_cross.Dso.{Dso, Shdr, addr_to_sec}
use prelink_cross.Data.{M, ◌>>=◌, pure}
use prelink_cross.X86_64.{same_name}

-- `info` of the object, and `dynamic_info_is_set`: the value of a tag, and whether it is there.
pub record Dynamic : Type 0 where
  pub info : ℕ → ℕ
  pub is_set : ℕ → Bool

-- `struct reloc_info`, without `relcount`, which stays 0. A `last` of -1 is `none`.
pub record RelocInfo : Type 0 where
  pub first : ℕ
  pub last : Option ℕ
  pub plt : ℕ
  pub overlap : Bool
  pub reldyn_rela : Bool
  pub plt_rela : Bool
  pub rel_to_rela : Bool
  pub rel_to_rela_plt : Bool

abbrev pub no_sections : RelocInfo
no_sections = record {
  first = 0;
  last = some 0;
  plt = 0;
  overlap = false;
  reldyn_rela = false;
  plt_rela = false;
  rel_to_rela = false;
  rel_to_rela_plt = false;
}

-- SHT_RELA and SHT_REL.
abbrev pub reloc_type : Bool → ℕ
reloc_type rela = if rela then 4 else 9

-- ".rela.plt" and ".rel.plt".
abbrev pub rel_plt_name : Bool → List ℕ
rel_plt_name true = 0x2e ∷ 0x72 ∷ 0x65 ∷ 0x6c ∷ 0x61 ∷ 0x2e ∷ 0x70 ∷ 0x6c ∷ 0x74 ∷ []
rel_plt_name false = 0x2e ∷ 0x72 ∷ 0x65 ∷ 0x6c ∷ 0x2e ∷ 0x70 ∷ 0x6c ∷ 0x74 ∷ []

-- DT_RELA or DT_REL, and the end by DT_RELASZ or DT_RELSZ.
abbrev pub start_of : Dynamic → ℕ
start_of y = if y.is_set 7 then y.info 7 else y.info 17

abbrev pub end_of : Dynamic → ℕ
end_of y = if y.is_set 7 then add64 (y.info 7) (y.info 8) else add64 (y.info 17) (y.info 18)

-- The result of a search, with the change to `lastscn`.
abbrev pub search : ℕ → M (Option ℕ)
search addr d = some (addr_to_sec d addr)

abbrev pub ends_at : Shdr → ℕ → Bool
ends_at s end = add64 s.sh_addr s.sh_size == end

-- The condition on the section of the PLT, which is also the one that holds the last byte.
unfoldable pub is_plt : Dynamic → Shdr → ℕ → ℕ → Bool
is_plt y s start end =
    s.sh_addr == start
    && ends_at s end
    && (y.info 20 == 17 || y.info 20 == 7)
    && s.sh_type == reloc_type (y.info 20 == 7)
    && same_name s.name (rel_plt_name (y.info 20 == 7))

-- Whether the sections from a number on, so many of them, are of the type.
unfoldable pub all_of_type : List Shdr → ℕ → ℕ → ℕ → Bool
all_of_type l type i zero = true
all_of_type l type i (suc n) = elim (get_elem? l i) [
  | none ↦ false
  | some s ↦ s.sh_type == type && all_of_type l type (suc i) n
]

-- The sections of the relocations that are not empty: the first and the last. `none` is an error.
unfoldable pub surrounded : Bool → ℕ → ℕ → Option ℕ → Option ℕ → List Shdr → Option (ℕ × ℕ)
surrounded rela start end none last l = none
surrounded rela start end (some first) none l = none
surrounded rela start end (some first) (some last) l = elim (get_elem? l first) [
  | none ↦ none
  | some s ↦ elim (get_elem? l last) [
    | none ↦ none
    | some t ↦
        if s.sh_addr == start
          && ends_at t end
          && all_of_type l (reloc_type rela) first (suc last - first)
        then some (first, last)
        else none
  ]
]

unfoldable pub find_dyn : Bool → ℕ → ℕ → M (Option (ℕ × ℕ))
find_dyn rela start end = if start == end then pure (some (0, 0)) else do
  first ← search start
  last ← search (sub64 end 1)
  λ d. some (surrounded rela start end first last d.shdr, d)

-- The last section, without that of the PLT.
abbrev pub last_dyn : Bool → ℕ → Option ℕ
last_dyn overlap last =
    if not overlap then some last else if last == 0 then none else some (last - 1)

-- `need` is the `need_rel_to_rela` of the architecture, `none` if it has none.
module _ (need : Option (ℕ → ℕ → M Bool)) where
  abbrev pub needs : Bool → ℕ → ℕ → M Bool
  needs asked first last =
      if asked then elim need [ none ↦ pure false | some f ↦ f first last ] else pure false

  -- The section that holds the first byte and the one that holds the last.
  unfoldable pub check_plt :
      Dynamic → RelocInfo → ℕ → ℕ → Option ℕ → Option ℕ → M (Option RelocInfo)
  check_plt y r start end none last d = some (none, d)
  check_plt y r start end (some n) none d = some (none, d)
  check_plt y r start end (some n) (some m) d = elim (get_elem? d.shdr n) [
    | none ↦ some (none, d)
    | some s ↦
        if n == m && is_plt y s start end
        then elim (needs (s.sh_type == 9) n n d) [
          | none ↦ none
          | some (b, d') ↦
              some (some (record r { plt = n; plt_rela = s.sh_type == 4; rel_to_rela_plt = b }), d')
        ]
        else some (none, d)
  ]

  -- The section of the PLT, from `start` to `end`.
  unfoldable pub find_plt : Dynamic → RelocInfo → ℕ → ℕ → M (Option RelocInfo)
  find_plt y r start end = do
    first ← search start
    last ← search (sub64 end 1)
    check_plt y r start end first last

  -- What is stored at the end. A `last` of -1 makes the interval empty, as 0 does for a `first`
  -- that is not 0.
  unfoldable pub store : Bool → RelocInfo → Bool → ℕ → ℕ → M (Option RelocInfo)
  store rela r overlap first last = do
    b ←
        needs (not rela && not (first == 0)) first
          (elim (last_dyn overlap last) [ none ↦ 0 | some l ↦ l ])
    pure (
        some (record r {
          first = first;
          last = last_dyn overlap last;
          overlap = overlap;
          rel_to_rela = b;
        }))

  -- From the check of the gap between the two on.
  unfoldable pub join_plt : Bool → RelocInfo → ℕ → ℕ → ℕ → ℕ → Option (ℕ × ℕ) → M (Option RelocInfo)
  join_plt rela r start end pltstart pltend none = pure none
  join_plt rela r start end pltstart pltend (some (first, last)) =
      if not (pltstart == end) && not (pltend == end) && not (last + 1 == r.plt)
      then pure none
      else if pltstart == start && pltend == end
      then pure (some (record r { overlap = true }))
      else store rela r (not (pltstart == end) && pltend == end) first last

  -- The relocations but for those of the PLT, which goes from `pltstart` to `pltend`.
  unfoldable pub find_rest : Dynamic → ℕ → ℕ → Option RelocInfo → M (Option RelocInfo)
  find_rest y pltstart pltend none = pure none
  find_rest y pltstart pltend (some r) =
      if start_of y == 0 && end_of y == 0 then pure (some r) else do
        found ← find_dyn (y.is_set 7) (start_of y) (end_of y)
        join_plt (y.is_set 7) r (start_of y) (end_of y) pltstart pltend found

  -- The result 1 is `none`.
  unfoldable pub find_reloc_sections : Dynamic → M (Option RelocInfo)
  find_reloc_sections y =
      let r = record no_sections { reldyn_rela = y.is_set 7 } in
      let pltstart = y.info 23 in
      let pltend = add64 pltstart (y.info 2) in
      if y.is_set 17 && y.is_set 7
      then pure none
      else if pltstart == 0
      then find_rest y (end_of y) (end_of y) (some r)
      else do found ← find_plt y r pltstart pltend; find_rest y pltstart pltend found
