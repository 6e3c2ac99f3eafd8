-- ===== src/I386/Words.antt =====
-- Words of 32 bits and the 64 bits that they are computed in.
use prelink_cross.Base.{
  ℕ, ◌^◌, ◌<◌, ◌≡◌, refl, ap, fun_ext, List, Option, none, some, Bool, true, Option-cases, inl, inr,
  [], ◌∷◌, arith, add64, sub64, u8, u32, ◌>>>◌,
}
use prelink_cross.Bytes.{ByteOrder, lsb, msb, w32, buf_write_ne, buf_write_le32, buf_write_be32}
use prelink_cross.Dso.{Dso}
use prelink_cross.Data.{write, get_data, change_at, order_at}
use prelink_cross.I386.{sword}

same_bytes :
    (a b : ℕ)
    → u32 a ≡ u32 b
    → (u8 a ≡ u8 b)
      × (u8 (a >>> 8) ≡ u8 (b >>> 8))
      × (u8 (a >>> 16) ≡ u8 (b >>> 16))
      × (u8 (a >>> 24) ≡ u8 (b >>> 24))
same_bytes a b e = (omega arith, omega arith, omega arith, omega arith)

-- Only the low 32 bits of a word are written.
pub buf_write-low32 :
    (o : ByteOrder) (buf : List ℕ) (a b : ℕ)
    → u32 a ≡ u32 b
    → buf_write_ne o w32 buf a ≡ buf_write_ne o w32 buf b
unfolding buf_write_ne
buf_write-low32 lsb [] a b e = refl
buf_write-low32 lsb (_ ∷ []) a b e = refl
buf_write-low32 lsb (_ ∷ _ ∷ []) a b e = refl
buf_write-low32 lsb (_ ∷ _ ∷ _ ∷ []) a b e = refl
buf_write-low32 lsb (_ ∷ _ ∷ _ ∷ _ ∷ r) a b e =
    let (p0, p1, p2, p3) = same_bytes a b e in rw (buf_write_le32, p0, p1, p2, p3) refl
buf_write-low32 msb [] a b e = refl
buf_write-low32 msb (_ ∷ []) a b e = refl
buf_write-low32 msb (_ ∷ _ ∷ []) a b e = refl
buf_write-low32 msb (_ ∷ _ ∷ _ ∷ []) a b e = refl
buf_write-low32 msb (_ ∷ _ ∷ _ ∷ _ ∷ r) a b e =
    let (p0, p1, p2, p3) = same_bytes a b e in rw (buf_write_be32, p0, p1, p2, p3) refl

abbrev written : Option Dso → Option (Bool × Dso)
written none = none
written (some d) = some (true, d)

pub write-low32 :
    (host o : ByteOrder) (addr a b : ℕ) (d : Dso)
    → u32 a ≡ u32 b
    → write host o w32 addr a d ≡ write host o w32 addr b d
unfolding write
write-low32 host o addr a b d e = elim (Option-cases (get_data d addr).0) [
  | inl g ↦ rw (write, g) refl
  | inr (p, g) ↦
      let same = fun_ext (λ buf. buf_write-low32 (order_at host o p) buf a b e) in
      rw (write, g) (ap (λ f. written (change_at (get_data d addr).1 p f)) same)
]

-- Sign extension does not show in the low bits of a sum.
pub sum-sword : (v w : ℕ) → u32 (add64 v w) ≡ u32 (add64 v (sword w))
sum-sword v w = ground arith

pub difference-sword :
    (v w off : ℕ) → off < 2 ^ 64 → u32 (sub64 (add64 v w) off) ≡ u32 (sub64 (add64 v (sword w)) off)
difference-sword v w off h = ground arith

pub sword-u32 : (x : ℕ) → sword (u32 x) ≡ sword x
sword-u32 x = ground arith
