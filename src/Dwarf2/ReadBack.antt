-- ===== src/Dwarf2/ReadBack.antt =====
-- A table of abbreviations, written as the DWARF standard says, and `read_abbrev`.
use prelink_cross.Base.{
  ℕ, zero, suc, ◌+◌, ◌^◌, ◌≤◌, ◌<◌, ◌≡◌, refl, sym, ap, ◌∙◌, true, false, some, List, [], ◌∷◌, ◌++◌,
  arith, ◌==◌, length, length-append, All,
}
use prelink_cross.Dwarf2.{read_uleb128}
use prelink_cross.Dwarf2.Abbrev.{
  AbbrevAttr, AbbrevTag, ok, known_form, read_attrs, has_entry, read_tag, read_tags, read_abbrev,
}
use prelink_cross.Dwarf2.Uleb.{leb128, read_uleb128-leb128}
use mathlib.Core.List.{append_assoc, append-nil}

-- The bytes of attributes, with the two zeros behind, and of tags, with the zero behind. `flag` gives
-- the byte that says whether a tag has children, by the entry of the tag.
unfoldable pub print_attrs : List AbbrevAttr → List ℕ → List ℕ
print_attrs [] rest = 0 ∷ 0 ∷ rest
print_attrs (a ∷ l) rest = leb128 3 a.attr ++ (leb128 3 a.form ++ print_attrs l rest)

unfoldable pub print_tags : (ℕ → ℕ) → List AbbrevTag → List ℕ → List ℕ
print_tags flag [] rest = 0 ∷ rest
print_tags flag (t ∷ h) rest =
    leb128 3 t.entry
    ++ (leb128 3 t.tag ++ flag t.entry ∷ print_attrs t.attrs (print_tags flag h rest))

-- Numbers that `read_uleb128` can read, and forms that are known.
abbrev pub IsAttr : AbbrevAttr → Type 0
IsAttr a = (0 < a.attr) × (a.attr < 2 ^ 28) × (a.form < 2 ^ 28) × (known_form a.form ≡ true)

abbrev pub IsTag : AbbrevTag → Type 0
IsTag t = (0 < t.entry) × (t.entry < 2 ^ 28) × (t.tag < 2 ^ 28) × All IsAttr t.attrs

-- No tag has the entry of one before it, or of one of the first list.
abbrev pub AreFresh : List AbbrevTag → List AbbrevTag → Type 0
AreFresh h [] = Unit
AreFresh h (t ∷ l) = (has_entry h t.entry ≡ false) × AreFresh (h ++ t ∷ []) l

leb128-nonempty : (k v : ℕ) → 1 ≤ length (leb128 k v)
unfolding leb128
leb128-nonempty zero v = omega arith
leb128-nonempty (suc k) v = ground arith

length-print_attrs :
    (l : List AbbrevAttr) (rest : List ℕ) → length l + 2 + length rest ≤ length (print_attrs l rest)
unfolding print_attrs
length-print_attrs [] rest = omega arith
length-print_attrs (a ∷ l) rest = grind (
  arith,
  length-append (leb128 3 a.attr) (leb128 3 a.form ++ print_attrs l rest),
  length-append (leb128 3 a.form) (print_attrs l rest),
  leb128-nonempty 3 a.attr,
  length-print_attrs l rest,
)

zero_read : (r : List ℕ) → read_uleb128 (0 ∷ r) ≡ some (0, r)
unfolding leb128
zero_read r = read_uleb128-leb128 0 r (omega arith)

nonzero : (n : ℕ) → 0 < n → (n == 0) ≡ false
nonzero n h = ground arith

read_attrs-print_attrs :
    (l acc : List AbbrevAttr) (fuel : ℕ) (rest : List ℕ)
    → All IsAttr l
    → length l < fuel
    → read_attrs fuel (print_attrs l rest) acc ≡ ok (acc ++ l, 0 ∷ rest)
unfolding read_attrs print_attrs
read_attrs-print_attrs l acc zero rest h f = absurd (omega arith)
read_attrs-print_attrs [] acc (suc fuel) rest h f =
    rw (read_attrs, zero_read (0 ∷ rest)) (ap (λ l. ok (l, 0 ∷ rest)) (sym (append-nil acc)))
read_attrs-print_attrs (a ∷ l) acc (suc fuel) rest ((pos, a28, f28, known), h) f =
    rw
      (
        read_attrs,
        read_uleb128-leb128 a.attr (leb128 3 a.form ++ print_attrs l rest) a28,
        nonzero a.attr pos,
        read_uleb128-leb128 a.form (print_attrs l rest) f28,
        known,
      )
      (read_attrs-print_attrs l (acc ++ a ∷ []) fuel rest h (omega arith)
        ∙ ap (λ l. ok (l, 0 ∷ rest)) (append_assoc acc (a ∷ []) l))

read_tag-print :
    (t : AbbrevTag) (flag fuel : ℕ) (rest : List ℕ)
    → IsTag t
    → length t.attrs < fuel
    → read_tag fuel (leb128 3 t.tag ++ flag ∷ print_attrs t.attrs rest) t.entry ≡ ok (t, rest)
unfolding read_tag
read_tag-print t flag fuel rest (pos, e28, t28, h) f =
    rw
      (
        read_tag,
        read_uleb128-leb128 t.tag (flag ∷ print_attrs t.attrs rest) t28,
        read_attrs-print_attrs t.attrs [] fuel rest h f,
        zero_read rest,
      )
      refl

length-print_tags :
    (flag : ℕ → ℕ) (t : AbbrevTag) (h : List AbbrevTag) (rest : List ℕ)
    → (length t.attrs + 2 + length (print_tags flag h rest) < length (print_tags flag (t ∷ h) rest))
unfolding print_tags
length-print_tags flag t h rest = grind (
  arith,
  length-append (leb128 3 t.entry)
      (leb128 3 t.tag ++ flag t.entry ∷ print_attrs t.attrs (print_tags flag h rest)),
  length-append (leb128 3 t.tag) (flag t.entry ∷ print_attrs t.attrs (print_tags flag h rest)),
  leb128-nonempty 3 t.entry,
  length-print_attrs t.attrs (print_tags flag h rest),
)

read_tags-print_tags :
    (l h : List AbbrevTag) (flag : ℕ → ℕ) (fuel : ℕ) (rest : List ℕ)
    → All IsTag l
    → AreFresh h l
    → length (print_tags flag l rest) < fuel
    → read_tags fuel (print_tags flag l rest) h ≡ ok (h ++ l)
unfolding read_tags print_tags
read_tags-print_tags l h flag zero rest all fresh f = absurd (omega arith)
read_tags-print_tags [] h flag (suc fuel) rest all fresh f =
    rw (read_tags, zero_read rest) (ap ok (sym (append-nil h)))
read_tags-print_tags (t ∷ l) h flag (suc fuel) rest (it, all) (new, fresh) f =
    let more = leb128 3 t.tag ++ flag t.entry ∷ print_attrs t.attrs (print_tags flag l rest) in
    let shorter = length-print_tags flag t l rest in
    rw
      (
        read_tags,
        read_uleb128-leb128 t.entry more it.1,
        nonzero t.entry it.0,
        new,
        read_tag-print t (flag t.entry) fuel (print_tags flag l rest) it (omega arith),
      )
      (read_tags-print_tags l (h ++ t ∷ []) flag fuel rest all fresh (omega arith)
        ∙ ap ok (append_assoc h (t ∷ []) l))

-- A table of abbreviations whose numbers are below 2 ^ 28, whose entries are positive and different
-- from those before, and whose attributes are positive and of known forms is read back from its
-- bytes, with its numbers in their shortest LEB128 form and any DW_CHILDREN byte for each entry,
-- whatever follows them.
pub read_abbrev-print_tags :
    (flag : ℕ → ℕ) (l : List AbbrevTag) (rest : List ℕ)
    → All IsTag l
    → AreFresh [] l
    → read_abbrev (print_tags flag l rest) ≡ ok l
unfolding read_abbrev
read_abbrev-print_tags flag l rest all fresh =
    read_tags-print_tags l [] flag (length (print_tags flag l rest) + 1) rest all fresh
      (omega arith)
