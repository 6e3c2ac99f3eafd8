-- ===== src/Ppc/Applies.antt =====
-- What a conflict of PowerPC does when it is applied.
use prelink_cross.Base.{
  ℕ, ◌≡◌, refl, Bool, false, Option, none, some, List, arith, ap, subst, sym, ◌∙◌, ◌≢◌, add64,
  sub64, ◌>>>◌,
}
use prelink_cross.Bytes.{ByteOrder, msb, w16, w32, buf_read_une, buf_write_ne}
use prelink_cross.Dso.{Dso}
use prelink_cross.Data.{pure}
use prelink_cross.Reloc.{Rela, Conflict, Objects, gelf_r_type, conflict_lookup_value}
use prelink_cross.X86_64.Prelink.{Applied, of_write}
use prelink_cross.X86_64.Conflicts.{Verdict, added}
use prelink_cross.X86_64.Conflicts.Applies.{resolve_to}
use prelink_cross.Ppc.{
  RelocType, none_, addr32, addr24, addr16, addr16_lo, addr16_hi, addr16_ha, addr14, addr14_brtaken,
  addr14_brntaken, rel24, glob_dat, uaddr32, uaddr16, rel32, type_of,
}
use prelink_cross.Ppc.Words.{
  read_ube32, sign_16, high_adjusted, field_24, field_14, field_14_predicted,
}
use prelink_cross.Ppc.Fields.{buf_write-sword, buf_write-sign_16}
use prelink_cross.Ppc.Predicted.{write_field-differs}
use prelink_cross.Ppc.Prelink.{apply_type, apply_rela, apply_conflict_rela, write_field}
use prelink_cross.Ppc.Conflicts.{
  ret, plain_rela, field_rela, conflict_type, conflict_rela, prelink_conflict_rela,
}

-- The types that put a part of a value into a part of the word that is there.
abbrev pub IsField : RelocType → Type 0
IsField addr24 = Unit {0}
IsField addr14 = Unit {0}
IsField addr14_brtaken = Unit {0}
IsField addr14_brntaken = Unit {0}
IsField rel24 = Unit {0}
IsField _ = ⊥

-- The types that ask for a word or a part of one that depends on the value of a symbol, but for
-- ADDR14_BRTAKEN and JMP_SLOT.
abbrev pub IsWord : RelocType → Type 0
IsWord glob_dat = Unit {0}
IsWord addr32 = Unit {0}
IsWord uaddr32 = Unit {0}
IsWord addr16 = Unit {0}
IsWord uaddr16 = Unit {0}
IsWord addr16_lo = Unit {0}
IsWord addr16_hi = Unit {0}
IsWord addr16_ha = Unit {0}
IsWord addr24 = Unit {0}
IsWord addr14 = Unit {0}
IsWord addr14_brntaken = Unit {0}
IsWord rel24 = Unit {0}
IsWord rel32 = Unit {0}
IsWord _ = ⊥

-- The bytes to be changed are those of the library.
abbrev pub SameWord : ByteOrder → Rela → Dso → List ℕ → Type 0
SameWord host rela d buf =
    (word : ℕ) (d' : Dso)
    → read_ube32 host rela.r_offset d ≡ some (word, d')
    → buf_read_une msb w32 buf ≡ some word

module _ (grows : Bool) (rela r : Rela) (buf : List ℕ) (dest : ℕ) where
  -- What is to hold of the relocation that is added.
  abbrev Gives : Applied → Type 0
  Gives a = (r.r_offset ≡ rela.r_offset) × ((apply_conflict_rela grows r buf dest).0 ≡ a)

  Gives-ret :
      (t : RelocType) (v : ℕ) (a : Applied)
      → (apply_conflict_rela grows (ret rela t v) buf dest).0 ≡ a
      → added (ret rela t v) ≡ added r
      → Gives a
  Gives-ret t v a h e =
      let p : ret rela t v ≡ r = cc e in
      (ap (λ x. x.r_offset) (sym p), subst (λ x. (apply_conflict_rela grows x buf dest).0 ≡ a) p h)

  -- The two relocations that the conflicts of `IsWord` are, but for UADDR32 and UADDR16.
  Gives-word :
      (v : ℕ) → added (ret rela addr32 v) ≡ added r → Gives (of_write (buf_write_ne msb w32 buf v))
  unfolding apply_conflict_rela type_of
  Gives-word v e = Gives-ret addr32 v _ (ap of_write (buf_write-sword buf v)) e

  Gives-half :
      (v : ℕ)
      → added (ret rela addr16 (sign_16 v)) ≡ added r
      → Gives (of_write (buf_write_ne msb w16 buf v))
  unfolding apply_conflict_rela type_of
  Gives-half v e = Gives-ret addr16 (sign_16 v) _ (ap of_write (buf_write-sign_16 buf v)) e

module _ (host : ByteOrder) (got same_dso grows : Bool) (curtls : ℕ) (objects : Objects)
    (rela r : Rela) (c : Conflict) (d d' : Dso) (buf : List ℕ) (dest : ℕ)
    (plain : c.ifunc ≡ false) where
  -- The value of the conflict.
  abbrev value : ℕ
  value = add64 (conflict_lookup_value objects c) rela.r_addend

  -- Such a conflict is looked up, and the relocation is made of its value.
  conflict_type-rela :
      (t : RelocType)
      → IsWord t
      → conflict_type host got same_dso curtls objects t rela (some c) d ≡ some (added r, d')
      → conflict_rela host got same_dso curtls objects t rela (some c) value d ≡ some (added r, d')
  unfolding conflict_type
  conflict_type-rela glob_dat w e = ground arith
  conflict_type-rela addr32 w e = ground arith
  conflict_type-rela uaddr32 w e = ground arith
  conflict_type-rela addr16 w e = ground arith
  conflict_type-rela uaddr16 w e = ground arith
  conflict_type-rela addr16_lo w e = ground arith
  conflict_type-rela addr16_hi w e = ground arith
  conflict_type-rela addr16_ha w e = ground arith
  conflict_type-rela addr24 w e = ground arith
  conflict_type-rela addr14 w e = ground arith
  conflict_type-rela addr14_brntaken w e = ground arith
  conflict_type-rela rel24 w e = ground arith
  conflict_type-rela rel32 w e = ground arith
  conflict_type-rela _ w e = absurd w

  -- A field of the word that is there, for which the conflict is a whole word.
  after_read :
      (field : ℕ → ℕ) (w : Option (ℕ × Dso))
      → ((word : ℕ) (d1 : Dso) → w ≡ some (word, d1) → buf_read_une msb w32 buf ≡ some word)
      → ◌≡◌ {A = Option (Verdict × Dso)}
          (elim w [
            | none ↦ none
            | some (word, d1) ↦ pure (plain_rela addr32 rela (some c) (field word)) d1
          ])
          (some (added r, d'))
      → Gives grows rela r buf dest (write_field buf field)
  after_read field none same e = absurd (cc e)
  after_read field (some (word, d1)) same e =
      let g = rw plain at e in
      let p : added (ret rela addr32 (field word)) ≡ added r = cc g in
      rw (write_field, same word d1 refl) (Gives-word grows rela r buf dest (field word) p)

  field-Gives :
      (field : ℕ → ℕ)
      → SameWord host rela d buf
      → field_rela host rela (some c) field d ≡ some (added r, d')
      → Gives grows rela r buf dest (write_field buf field)
  field-Gives field same e = after_read field (read_ube32 host rela.r_offset d) same e

  whole-Gives :
      (v : ℕ)
      → pure (plain_rela addr32 rela (some c) v) d ≡ some (added r, d')
      → Gives grows rela r buf dest (of_write (buf_write_ne msb w32 buf v))
  whole-Gives v e = let g = rw plain at e in Gives-word grows rela r buf dest v (cc g)

  half-Gives :
      (v : ℕ)
      → pure (plain_rela addr16 rela (some c) (sign_16 v)) d ≡ some (added r, d')
      → Gives grows rela r buf dest (of_write (buf_write_ne msb w16 buf v))
  half-Gives v e = let g = rw plain at e in Gives-half grows rela r buf dest v (cc g)

  conflict_rela-apply :
      (t : RelocType)
      → IsWord t
      → (IsField t → SameWord host rela d buf)
      → conflict_rela host got same_dso curtls objects t rela (some c) value d ≡ some (added r, d')
      → Gives grows rela r buf dest
          (apply_type (resolve_to (conflict_lookup_value objects c)) t rela buf)
  unfolding conflict_rela apply_type
  conflict_rela-apply glob_dat w same e =
      let g = rw plain at e in Gives-word grows rela r buf dest value (cc g)
  conflict_rela-apply addr32 w same e =
      let g = rw plain at e in Gives-word grows rela r buf dest value (cc g)
  conflict_rela-apply uaddr32 w same e =
      let g = rw plain at e in
      Gives-ret grows rela r buf dest uaddr32 value _
        (unfold apply_conflict_rela type_of in ap of_write (buf_write-sword buf value)) (cc g)
  conflict_rela-apply uaddr16 w same e =
      let g = rw plain at e in
      Gives-ret grows rela r buf dest uaddr16 (sign_16 value) _
        (unfold apply_conflict_rela type_of in ap of_write (buf_write-sign_16 buf value)) (cc g)
  conflict_rela-apply addr16 w same e = half-Gives value e
  conflict_rela-apply addr16_lo w same e = half-Gives value e
  conflict_rela-apply addr16_hi w same e = half-Gives (value >>> 16) e
  conflict_rela-apply addr16_ha w same e = half-Gives (high_adjusted value) e
  conflict_rela-apply addr24 w same e = field-Gives (field_24 value) (same tt) e
  conflict_rela-apply addr14 w same e = field-Gives (field_14 value) (same tt) e
  conflict_rela-apply addr14_brntaken w same e =
      field-Gives (field_14_predicted false value) (same tt) e
  conflict_rela-apply rel24 w same e =
      field-Gives (field_24 (sub64 value rela.r_offset)) (same tt) e
  conflict_rela-apply rel32 w same e = whole-Gives (sub64 value rela.r_offset) e
  conflict_rela-apply none_ w same e = absurd w
  conflict_rela-apply _ w same e = absurd w

-- For a relocation that asks for a word, a half word or a field of an instruction, and a symbol that
-- is no IFUNC: the relocation that ppc_prelink_conflict_rela adds is at the same offset, and
-- applying it gives, byte by byte, what applying the original one gives when its symbol resolves to
-- the value of the conflict. For a field, the bytes are taken to hold the library's word.
-- R_PPC_ADDR14_BRTAKEN and R_PPC_JMP_SLOT are left out.
pub prelink_conflict_rela-apply_word :
    (host : ByteOrder) (got same_dso grows : Bool) (curtls : ℕ) (objects : Objects) (rela r : Rela)
    (c : Conflict) (d d' : Dso) (buf : List ℕ) (dest : ℕ)
    → c.ifunc ≡ false
    → IsWord (type_of (gelf_r_type rela.r_info))
    → (IsField (type_of (gelf_r_type rela.r_info)) → SameWord host rela d buf)
    → prelink_conflict_rela host got same_dso curtls objects rela (some c) d ≡ some (added r, d')
    → (r.r_offset ≡ rela.r_offset)
      × ((apply_conflict_rela grows r buf dest).0
          ≡ apply_rela (resolve_to (conflict_lookup_value objects c)) rela buf)
unfolding prelink_conflict_rela apply_rela
prelink_conflict_rela-apply_word host got same_dso grows curtls objects rela r c d d' buf dest plain
      w same e =
    let t = type_of (gelf_r_type rela.r_info) in
    conflict_rela-apply host got same_dso grows curtls objects rela r c d d' buf dest plain t w same
      (conflict_type-rela host got same_dso grows curtls objects rela r c d d' buf dest plain t w e)

word_of_field :
    (host : ByteOrder) (rela : Rela) (r : Rela) (c : Option Conflict) (field : ℕ → ℕ) (d d' : Dso)
    → field_rela host rela c field d ≡ some (added r, d')
    → (word : ℕ) × (d1 : Dso) × (read_ube32 host rela.r_offset d ≡ some (word, d1))
word_of_field host rela r c field d d' = read (read_ube32 host rela.r_offset d)
  where
    read :
        (w : Option (ℕ × Dso))
        → ◌≡◌ {A = Option (Verdict × Dso)}
            (elim w [
              | none ↦ none
              | some (word, d1) ↦ pure (plain_rela addr32 rela c (field word)) d1
            ])
            (some (added r, d'))
        → (word : ℕ) × (d1 : Dso) × (w ≡ some (word, d1))
    read none e = absurd (cc e)
    read (some (word, d1)) e = (word, d1, refl)

-- For a symbol that is no IFUNC, and bytes that hold the library's word, a conflict that is added for
-- R_PPC_ADDR14_BRTAKEN is wrong, whatever the value and the word: applying it does not give what
-- applying the relocation itself gives when its symbol resolves to the value of the conflict. It
-- gives what R_PPC_ADDR14_BRNTAKEN would.
pub conflict_type-brtaken :
    (host : ByteOrder) (got same_dso grows : Bool) (curtls : ℕ) (objects : Objects) (rela r : Rela)
    (c : Conflict) (d d' : Dso) (buf : List ℕ) (dest : ℕ)
    → c.ifunc ≡ false
    → SameWord host rela d buf
    → conflict_type host got same_dso curtls objects addr14_brtaken rela (some c) d
      ≡ some (added r, d')
    → ((apply_conflict_rela grows r buf dest).0
        ≢ apply_type (resolve_to (conflict_lookup_value objects c)) addr14_brtaken rela buf)
      × ((apply_conflict_rela grows r buf dest).0
          ≡ apply_type (resolve_to (conflict_lookup_value objects c)) addr14_brntaken rela buf)
unfolding conflict_type conflict_rela apply_type
conflict_type-brtaken host got same_dso grows curtls objects rela r c d d' buf dest plain same e =
    let n =
      conflict_type-rela host got same_dso grows curtls objects rela r c d d' buf dest plain in
    let v = add64 (conflict_lookup_value objects c) rela.r_addend in
    let gives = n addr14_brntaken tt e in
    let as_not_taken =
      (conflict_rela-apply host got same_dso grows curtls objects rela r c d d' buf dest plain
        addr14_brntaken tt (λ f. same) gives).1 in
    let (word, d1, at) =
      word_of_field host rela r (some c) (field_14_predicted false v) d d' gives in
    (
      λ taken. write_field-differs buf word v (same word d1 at) (sym as_not_taken ∙ taken),
      as_not_taken,
    )
