-- ===== src/Dwarf2/Places.antt =====
-- Reads and writes at an offset that is the length of what stands before it.
use prelink_cross.Base.{
  ℕ, ◌-◌, ◌^◌, ◌+◌, ◌<◌, ◌≤◌, ◌≡◌, ◌⊎◌, bit_and, bit_or, ◌<<<◌, inl, inr, Bool-cases, leb, refl, ap,
  ◌∙◌, Bool, true, false, Option, some, List, [], ◌∷◌, ◌++◌, arith, length, length-append, drop,
  get_elem?, u8, u32, ◌>>>◌,
}
use prelink_cross.Bytes.{ByteOrder, lsb, msb, buf_read_une, buf_write_ne, limit_of}
use prelink_cross.Bytes.RoundTrip.{buf_read-written}
use prelink_cross.Data.{change_from}
use prelink_cross.Dwarf2.{
  uint_max, uleb_loop, read_uleb128, Debug, ptr_width, read_ptr, write_ptr, dwarf2_write_ptr,
  dwarf2_write_le32, dwarf2_write_le64, dwarf2_write_be32, dwarf2_write_be64,
}
use prelink_cross.Dwarf2.Expressions.{uleb_at}
use prelink_cross.Dwarf2.Uleb.{IsByte, last_byte, inner_byte, leb128, read_uleb128-leb128}

-- The bytes of a pointer.
unfoldable pub ptr_bytes : Bool → ByteOrder → ℕ → List ℕ
ptr_bytes false lsb val =
    let v = u32 val in u8 v ∷ u8 (v >>> 8) ∷ u8 (v >>> 16) ∷ u8 (v >>> 24) ∷ []
ptr_bytes false msb val =
    let v = u32 val in u8 (v >>> 24) ∷ u8 (v >>> 16) ∷ u8 (v >>> 8) ∷ u8 v ∷ []
ptr_bytes true lsb v =
    u8 v
    ∷ u8 (v >>> 8)
    ∷ u8 (v >>> 16)
    ∷ u8 (v >>> 24)
    ∷ u8 (v >>> 32)
    ∷ u8 (v >>> 40)
    ∷ u8 (v >>> 48)
    ∷ u8 (v >>> 56)
    ∷ []
ptr_bytes true msb v =
    u8 (v >>> 56)
    ∷ u8 (v >>> 48)
    ∷ u8 (v >>> 40)
    ∷ u8 (v >>> 32)
    ∷ u8 (v >>> 24)
    ∷ u8 (v >>> 16)
    ∷ u8 (v >>> 8)
    ∷ u8 v
    ∷ []

pub length-ptr_bytes :
    (wide : Bool) (o : ByteOrder) (v w : ℕ)
    → length (ptr_bytes wide o v) ≡ length (ptr_bytes wide o w)
unfolding ptr_bytes
length-ptr_bytes false lsb v w = refl
length-ptr_bytes false msb v w = refl
length-ptr_bytes true lsb v w = refl
length-ptr_bytes true msb v w = refl

dwarf2_write_ptr-ptr_bytes :
    (wide : Bool) (o : ByteOrder) (v w : ℕ) (r : List ℕ)
    → dwarf2_write_ptr wide o (ptr_bytes wide o v ++ r) w ≡ some (ptr_bytes wide o w ++ r)
unfolding ptr_bytes dwarf2_write_ptr
dwarf2_write_ptr-ptr_bytes false lsb v w r = unfold dwarf2_write_le32 in refl
dwarf2_write_ptr-ptr_bytes false msb v w r = unfold dwarf2_write_be32 in refl
dwarf2_write_ptr-ptr_bytes true lsb v w r = unfold dwarf2_write_le64 in refl
dwarf2_write_ptr-ptr_bytes true msb v w r = unfold dwarf2_write_be64 in refl

buf_write_ne-ptr_bytes :
    (wide : Bool) (o : ByteOrder) (v : ℕ) (r : List ℕ)
    → v < limit_of (ptr_width wide)
    → buf_write_ne o (ptr_width wide) (ptr_bytes wide o v ++ r) v ≡ some (ptr_bytes wide o v ++ r)
unfolding ptr_bytes buf_write_ne
buf_write_ne-ptr_bytes false lsb v r h = let e : u32 v ≡ v = omega arith in rw e refl
buf_write_ne-ptr_bytes false msb v r h = let e : u32 v ≡ v = omega arith in rw e refl
buf_write_ne-ptr_bytes true lsb v r h = refl
buf_write_ne-ptr_bytes true msb v r h = refl

pub drop-prefix : (pre r : List ℕ) → drop (length pre) (pre ++ r) ≡ r
drop-prefix [] r = refl
drop-prefix (x ∷ pre) r = drop-prefix pre r

pub get_elem?-prefix : (pre r : List ℕ) (c : ℕ) → get_elem? (pre ++ c ∷ r) (length pre) ≡ some c
get_elem?-prefix [] r c = refl
get_elem?-prefix (x ∷ pre) r c = get_elem?-prefix pre r c

change_from-prefix :
    (pre r r' : List ℕ) (f : List ℕ → Option (List ℕ))
    → f r ≡ some r'
    → change_from (pre ++ r) (length pre) f ≡ some (pre ++ r')
unfolding change_from
change_from-prefix [] r r' f h = h
change_from-prefix (x ∷ pre) r r' f h = rw (change_from, change_from-prefix pre r r' f h) refl

module _ (d : Debug) (pre r : List ℕ) where
  pub read_ptr-prefix :
      (v : ℕ)
      → v < limit_of (ptr_width d.wide)
      → read_ptr d (pre ++ (ptr_bytes d.wide d.dso.e_data v ++ r)) (length pre) ≡ some v
  unfolding read_ptr
  read_ptr-prefix v h =
      ap (buf_read_une d.dso.e_data (ptr_width d.wide)) (drop-prefix pre _)
      ∙ buf_read-written d.dso.e_data (ptr_width d.wide) _ v _ h
          (buf_write_ne-ptr_bytes d.wide d.dso.e_data v r h)

  pub write_ptr-prefix :
      (v w : ℕ)
      → write_ptr d (pre ++ (ptr_bytes d.wide d.dso.e_data v ++ r)) (length pre) w
        ≡ some (pre ++ (ptr_bytes d.wide d.dso.e_data w ++ r))
  unfolding write_ptr
  write_ptr-prefix v w =
      change_from-prefix pre _ _ _ (dwarf2_write_ptr-ptr_bytes d.wide d.dso.e_data v w r)

-- A number of up to four bytes.
pub uleb_at-prefix :
    (pre r : List ℕ) (v : ℕ)
    → v < 2 ^ 28
    → uleb_at (pre ++ (leb128 3 v ++ r)) (length pre) ≡ some (v, length (pre ++ leb128 3 v))
unfolding uleb_at
uleb_at-prefix pre r v h =
    let e = drop-prefix pre (leb128 3 v ++ r) in
    let g = read_uleb128-leb128 v r h in
    let n : length (pre ++ (leb128 3 v ++ r)) - length r ≡ length (pre ++ leb128 3 v) = omega (
      arith,
      length-append pre (leb128 3 v ++ r),
      length-append (leb128 3 v) r,
      length-append pre (leb128 3 v),
    ) in
    rw (uleb_at, e, g) (ap (λ (k : ℕ). some (v, k)) n)

-- The bytes of a LEB128 number, signed or not and of any length: all but the last have the top bit.
unfoldable pub IsNumber : List ℕ → Type 0
IsNumber [] = ⊥
IsNumber (c ∷ r) = ((c < 128) × (r ≡ [])) ⊎ (128 ≤ c) × IsByte c × IsNumber r

uleb_loop-IsNumber :
    (bs : List ℕ) (ret shift : ℕ) (r : List ℕ)
    → IsNumber bs
    → (v : ℕ) × (s : ℕ) × (uleb_loop (bs ++ r) ret shift ≡ some (v, s, r))
unfolding IsNumber uleb_loop
uleb_loop-IsNumber [] ret shift r h = absurd h
uleb_loop-IsNumber (c ∷ bs) ret shift r (inl (lt, e)) =
    let value = u32 (bit_or ret (bit_and c 0x7f <<< shift)) in
    (value, shift + 7, rw (last_byte c lt) (ap (λ l. some (value, shift + 7, l ++ r)) e))
uleb_loop-IsNumber (c ∷ bs) ret shift r (inr (big, byte, h)) =
    let value = u32 (bit_or ret (bit_and c 0x7f <<< shift)) in
    let (v, s, e) = uleb_loop-IsNumber bs value (shift + 7) r h in
    (v, s, rw (inner_byte c byte big) e)

read_uleb128-IsNumber :
    (bs r : List ℕ) → IsNumber bs → (v : ℕ) × (read_uleb128 (bs ++ r) ≡ some (v, r))
unfolding read_uleb128
read_uleb128-IsNumber bs r h =
    let (v, s, e) = uleb_loop-IsNumber bs 0 0 r h in
    elim (Bool-cases (leb 35 s)) [
      | inl p ↦ (uint_max, ground (arith, e, p))
      | inr p ↦ (v, ground (arith, e, p))
    ]

pub uleb_at-IsNumber :
    (pre bs r : List ℕ)
    → IsNumber bs
    → (v : ℕ) × (uleb_at (pre ++ (bs ++ r)) (length pre) ≡ some (v, length (pre ++ bs)))
unfolding uleb_at
uleb_at-IsNumber pre bs r h =
    let (v, g) = read_uleb128-IsNumber bs r h in
    let e = drop-prefix pre (bs ++ r) in
    let n : length (pre ++ (bs ++ r)) - length r ≡ length (pre ++ bs) =
      omega (arith, length-append pre (bs ++ r), length-append bs r, length-append pre bs) in
    (v, rw (uleb_at, e, g) (ap (λ (k : ℕ). some (v, k)) n))
