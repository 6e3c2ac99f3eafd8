-- ===== src/Dwarf2/Abbrev.antt =====
-- `read_abbrev`: the table of abbreviations of .debug_abbrev. The hash table of the source, which
-- is searched by `entry` only, is a list.
use prelink_cross.Base.{
  ℕ, zero, suc, ◌+◌, Bool, true, false, ◌&&◌, ◌||◌, not, none, some, List, [], ◌∷◌, ◌++◌, ltb, ◌==◌,
  if◌then◌else◌, length,
}
use prelink_cross.Dwarf2.{read_uleb128}

-- `struct abbrev_attr` and `struct abbrev_tag`.
pub record AbbrevAttr : Type 0 where
  pub attr : ℕ
  pub form : ℕ

pub record AbbrevTag : Type 0 where
  pub entry : ℕ
  pub tag : ℕ
  pub attrs : List AbbrevAttr

-- The three errors, a table that does not end in the section, and a model that ran out of fuel. The
-- memory that the source asks for is there.
pub data AbbrevResult (A : Type 0) : Type 0 where
  ok : A → AbbrevResult A
  duplicate : AbbrevResult A
  unknown_form : AbbrevResult A
  no_two_zeros : AbbrevResult A
  truncated : AbbrevResult A
  stuck : AbbrevResult A

-- DW_FORM_flag_present, DW_FORM_ref_sig8, DW_FORM_GNU_ref_alt and DW_FORM_GNU_strp_alt.
unfoldable pub known_form : ℕ → Bool
known_form form = not (
    form == 2
    || ltb 0x19 form && not (form == 0x20) && not (form == 0x1f20) && not (form == 0x1f21))

-- The inner `while`, with the attributes read so far.
unfoldable pub read_attrs : ℕ → List ℕ → List AbbrevAttr → AbbrevResult (List AbbrevAttr × List ℕ)
read_attrs zero ptr acc = stuck
read_attrs (suc fuel) ptr acc = elim (read_uleb128 ptr) [
  | none ↦ truncated
  | some (attr, ptr1) ↦ if attr == 0 then ok (acc, ptr1) else elim (read_uleb128 ptr1) [
    | none ↦ truncated
    | some (form, ptr2) ↦ elim (known_form form) [
      | false ↦ unknown_form
      | true ↦ read_attrs fuel ptr2 (acc ++ record { attr = attr; form = form } ∷ [])
    ]
  ]
]

unfoldable pub has_entry : List AbbrevTag → ℕ → Bool
has_entry [] entry = false
has_entry (t ∷ h) entry = t.entry == entry || has_entry h entry

-- `++ptr` over the children flag.
abbrev pub skip_flag : List ℕ → List ℕ
skip_flag [] = []
skip_flag (_ ∷ ptr) = ptr

-- One round of the outer `while`, from behind a nonzero `entry` on.
unfoldable pub read_tag : ℕ → List ℕ → ℕ → AbbrevResult (AbbrevTag × List ℕ)
read_tag fuel ptr entry = elim (read_uleb128 ptr) [
  | none ↦ truncated
  | some (tag, ptr1) ↦ elim (read_attrs fuel (skip_flag ptr1) []) [
    | ok (attrs, ptr2) ↦ elim (read_uleb128 ptr2) [
      | none ↦ truncated
      | some (end, ptr3) ↦
          if end == 0
          then ok (record { entry = entry; tag = tag; attrs = attrs }, ptr3)
          else no_two_zeros
    ]
    | duplicate ↦ duplicate
    | unknown_form ↦ unknown_form
    | no_two_zeros ↦ no_two_zeros
    | truncated ↦ truncated
    | stuck ↦ stuck
  ]
]

-- The outer `while`, with the tags read so far.
unfoldable pub read_tags : ℕ → List ℕ → List AbbrevTag → AbbrevResult (List AbbrevTag)
read_tags zero ptr h = stuck
read_tags (suc fuel) ptr h = elim (read_uleb128 ptr) [
  | none ↦ truncated
  | some (entry, ptr1) ↦ if entry == 0 then ok h else elim (has_entry h entry) [
    | true ↦ duplicate
    | false ↦ elim (read_tag fuel ptr1 entry) [
      | ok (t, ptr2) ↦ read_tags fuel ptr2 (h ++ t ∷ [])
      | duplicate ↦ duplicate
      | unknown_form ↦ unknown_form
      | no_two_zeros ↦ no_two_zeros
      | truncated ↦ truncated
      | stuck ↦ stuck
    ]
  ]
]

-- Each round takes a byte at least.
unfoldable pub read_abbrev : List ℕ → AbbrevResult (List AbbrevTag)
read_abbrev ptr = read_tags (length ptr + 1) ptr []
