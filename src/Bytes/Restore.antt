-- ===== src/Bytes/Restore.antt =====
-- Bytes read as a word and written back, and the two byte orders against each other.
use prelink_cross.Base.{
  ℕ, ◌+◌, ◌*◌, ◌^◌, ◌≤◌, ◌<◌, ◌≡◌, refl, ap, some, List, [], ◌∷◌, arith, length, take, u8, ◌>>>◌,
}
use mathlib.Core.List.{reverse}
use prelink_cross.Bytes.{
  ByteOrder, lsb, msb, Width, w8, w16, w32, w64, bytes_of, limit_of, buf_read_une, buf_write_ne,
}
use prelink_cross.Bytes.Sums.{join16-sum, join32-sum, join64-sum}

-- Every element is a byte.
abbrev pub AreBytes : List ℕ → Type 0
AreBytes [] = Unit {0}
AreBytes (b ∷ r) = (b < 256) × AreBytes r

-- A word is read, is in range, and writing it changes nothing.
abbrev pub Restores : ByteOrder → Width → List ℕ → Type 0
Restores o w buf =
    (val : ℕ) × (buf_read_une o w buf ≡ some val)
    × (val < limit_of w)
    × (buf_write_ne o w buf val ≡ some buf)

-- The bytes of a sum of 2 bytes are those bytes.
bytes16 :
    (b0 b1 : ℕ)
    → AreBytes (b0 ∷ b1 ∷ [])
    → let val = b0 + b1 * 2 ^ 8 in (u8 val ≡ b0) × (u8 (val >>> 8) ≡ b1) × (val < 2 ^ 16)
bytes16 b0 b1 h = omega arith

-- The bytes of a sum of 4 bytes are those bytes.
bytes32 :
    (b0 b1 b2 b3 : ℕ)
    → AreBytes (b0 ∷ b1 ∷ b2 ∷ b3 ∷ [])
    → let val = b0 + b1 * 2 ^ 8 + b2 * 2 ^ 16 + b3 * 2 ^ 24 in
      (u8 val ≡ b0)
      × (u8 (val >>> 8) ≡ b1)
      × (u8 (val >>> 16) ≡ b2)
      × (u8 (val >>> 24) ≡ b3)
      × (val < 2 ^ 32)
bytes32 b0 b1 b2 b3 h = omega arith

-- The bytes of a sum of 8 bytes are those bytes.
bytes64 :
    (b0 b1 b2 b3 b4 b5 b6 b7 : ℕ)
    → AreBytes (b0 ∷ b1 ∷ b2 ∷ b3 ∷ b4 ∷ b5 ∷ b6 ∷ b7 ∷ [])
    → let val =
        b0
        + b1 * 2 ^ 8
        + b2 * 2 ^ 16
        + b3 * 2 ^ 24
        + b4 * 2 ^ 32
        + b5 * 2 ^ 40
        + b6 * 2 ^ 48
        + b7 * 2 ^ 56 in
      (u8 val ≡ b0)
      × (u8 (val >>> 8) ≡ b1)
      × (u8 (val >>> 16) ≡ b2)
      × (u8 (val >>> 24) ≡ b3)
      × (u8 (val >>> 32) ≡ b4)
      × (u8 (val >>> 40) ≡ b5)
      × (u8 (val >>> 48) ≡ b6)
      × (u8 (val >>> 56) ≡ b7)
      × (val < 2 ^ 64)
bytes64 b0 b1 b2 b3 b4 b5 b6 b7 h = omega arith

Restores-lsb8 : (buf : List ℕ) → AreBytes buf → 1 ≤ length buf → Restores lsb w8 buf
unfolding buf_read_une buf_write_ne
Restores-lsb8 (b0 ∷ r) h e = (b0, refl, omega arith, ap (λ b. some (b ∷ r)) (omega arith))
Restores-lsb8 _ h e = absurd (omega arith)

Restores-lsb16 : (buf : List ℕ) → AreBytes buf → 2 ≤ length buf → Restores lsb w16 buf
unfolding buf_read_une buf_write_ne
Restores-lsb16 (b0 ∷ b1 ∷ r) h e =
    let p = bytes16 b0 b1 (omega arith) in
    (
      b0 + b1 * 2 ^ 8,
      ap some (rw (join16-sum b0 b1 (omega arith)) (omega arith)),
      omega arith,
      rw (p.0, p.1),
    )
Restores-lsb16 _ h e = absurd (omega arith)

Restores-lsb32 : (buf : List ℕ) → AreBytes buf → 4 ≤ length buf → Restores lsb w32 buf
unfolding buf_read_une buf_write_ne
Restores-lsb32 (b0 ∷ b1 ∷ b2 ∷ b3 ∷ r) h e =
    let p = bytes32 b0 b1 b2 b3 (omega arith) in
    (
      b0 + b1 * 2 ^ 8 + b2 * 2 ^ 16 + b3 * 2 ^ 24,
      ap some (rw (join32-sum b0 b1 b2 b3 (omega arith) (omega arith) (omega arith)) (omega arith)),
      omega arith,
      rw (p.0, p.1, p.2, p.3),
    )
Restores-lsb32 _ h e = absurd (omega arith)

Restores-lsb64 : (buf : List ℕ) → AreBytes buf → 8 ≤ length buf → Restores lsb w64 buf
unfolding buf_read_une buf_write_ne
Restores-lsb64 (b0 ∷ b1 ∷ b2 ∷ b3 ∷ b4 ∷ b5 ∷ b6 ∷ b7 ∷ r) h e =
    let p = bytes64 b0 b1 b2 b3 b4 b5 b6 b7 (omega arith) in
    (
      b0
          + b1 * 2 ^ 8
          + b2 * 2 ^ 16
          + b3 * 2 ^ 24
          + b4 * 2 ^ 32
          + b5 * 2 ^ 40
          + b6 * 2 ^ 48
          + b7 * 2 ^ 56,
      ap some (
          join64-sum b0 b1 b2 b3 b4 b5 b6 b7 (omega arith) (omega arith) (omega arith) (omega arith)
            (omega arith) (omega arith) (omega arith)),
      omega arith,
      rw (p.0, p.1, p.2, p.3, p.4, p.5, p.6, p.7),
    )
Restores-lsb64 _ h e = absurd (omega arith)

Restores-msb8 : (buf : List ℕ) → AreBytes buf → 1 ≤ length buf → Restores msb w8 buf
unfolding buf_read_une buf_write_ne
Restores-msb8 (b0 ∷ r) h e = (b0, refl, omega arith, ap (λ b. some (b ∷ r)) (omega arith))
Restores-msb8 _ h e = absurd (omega arith)

Restores-msb16 : (buf : List ℕ) → AreBytes buf → 2 ≤ length buf → Restores msb w16 buf
unfolding buf_read_une buf_write_ne
Restores-msb16 (b1 ∷ b0 ∷ r) h e =
    let p = bytes16 b0 b1 (omega arith) in
    (
      b0 + b1 * 2 ^ 8,
      ap some (rw (join16-sum b0 b1 (omega arith)) (omega arith)),
      omega arith,
      rw (p.0, p.1),
    )
Restores-msb16 _ h e = absurd (omega arith)

Restores-msb32 : (buf : List ℕ) → AreBytes buf → 4 ≤ length buf → Restores msb w32 buf
unfolding buf_read_une buf_write_ne
Restores-msb32 (b3 ∷ b2 ∷ b1 ∷ b0 ∷ r) h e =
    let p = bytes32 b0 b1 b2 b3 (omega arith) in
    (
      b0 + b1 * 2 ^ 8 + b2 * 2 ^ 16 + b3 * 2 ^ 24,
      ap some (rw (join32-sum b0 b1 b2 b3 (omega arith) (omega arith) (omega arith)) (omega arith)),
      omega arith,
      rw (p.0, p.1, p.2, p.3),
    )
Restores-msb32 _ h e = absurd (omega arith)

Restores-msb64 : (buf : List ℕ) → AreBytes buf → 8 ≤ length buf → Restores msb w64 buf
unfolding buf_read_une buf_write_ne
Restores-msb64 (b7 ∷ b6 ∷ b5 ∷ b4 ∷ b3 ∷ b2 ∷ b1 ∷ b0 ∷ r) h e =
    let p = bytes64 b0 b1 b2 b3 b4 b5 b6 b7 (omega arith) in
    (
      b0
          + b1 * 2 ^ 8
          + b2 * 2 ^ 16
          + b3 * 2 ^ 24
          + b4 * 2 ^ 32
          + b5 * 2 ^ 40
          + b6 * 2 ^ 48
          + b7 * 2 ^ 56,
      ap some (
          join64-sum b0 b1 b2 b3 b4 b5 b6 b7 (omega arith) (omega arith) (omega arith) (omega arith)
            (omega arith) (omega arith) (omega arith)),
      omega arith,
      rw (p.0, p.1, p.2, p.3, p.4, p.5, p.6, p.7),
    )
Restores-msb64 _ h e = absurd (omega arith)

-- In both byte orders and at every width, a buffer of bytes that is long enough is read as a word
-- in range, and writing that word leaves the buffer as it is.
pub buf_write-buf_read :
    (o : ByteOrder) (w : Width) (buf : List ℕ)
    → AreBytes buf
    → bytes_of w ≤ length buf
    → Restores o w buf
buf_write-buf_read lsb w8 = Restores-lsb8
buf_write-buf_read lsb w16 = Restores-lsb16
buf_write-buf_read lsb w32 = Restores-lsb32
buf_write-buf_read lsb w64 = Restores-lsb64
buf_write-buf_read msb w8 = Restores-msb8
buf_write-buf_read msb w16 = Restores-msb16
buf_write-buf_read msb w32 = Restores-msb32
buf_write-buf_read msb w64 = Restores-msb64

-- A big-endian read is the little-endian read of the same bytes in reverse order.
pub buf_read-reverse :
    (w : Width) (buf : List ℕ)
    → bytes_of w ≤ length buf
    → buf_read_une msb w buf ≡ buf_read_une lsb w (reverse (take (bytes_of w) buf))
unfolding buf_read_une
buf_read-reverse w8 (b0 ∷ r) e = refl
buf_read-reverse w8 _ e = absurd (omega arith)
buf_read-reverse w16 (b0 ∷ b1 ∷ r) e = refl
buf_read-reverse w16 _ e = absurd (omega arith)
buf_read-reverse w32 (b0 ∷ b1 ∷ b2 ∷ b3 ∷ r) e = refl
buf_read-reverse w32 _ e = absurd (omega arith)
buf_read-reverse w64 (b0 ∷ b1 ∷ b2 ∷ b3 ∷ b4 ∷ b5 ∷ b6 ∷ b7 ∷ r) e = refl
buf_read-reverse w64 _ e = absurd (omega arith)
