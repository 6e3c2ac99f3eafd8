-- ===== src/Bytes/RoundTrip.antt =====
-- Words written to a buffer and read back.
use prelink_cross.Base.{
  ℕ, ◌+◌, ◌*◌, ◌/◌, ◌%◌, ◌^◌, ◌≤◌, ◌<◌, ◌≡◌, ◌≢◌, none, refl, ap, ◌∙◌, some, List, ◌∷◌, arith,
  length, drop, u8, ◌>>>◌,
}
use prelink_cross.Bytes.{
  ByteOrder, lsb, msb, Width, w8, w16, w32, w64, bytes_of, limit_of, buf_read_une, buf_write_ne,
}
use prelink_cross.Bytes.Sums.{join16-sum, join32-sum, join64-sum}

-- `buf'` holds `val` and is `buf` outside the first `bytes_of w` bytes.
pub record Stored (o : ByteOrder) (w : Width) (buf : List ℕ) (val : ℕ) : Type 0 where
  pub out : List ℕ
  pub writes : buf_write_ne o w buf val ≡ some out
  pub reads : buf_read_une o w out ≡ some val
  pub same_length : length out ≡ length buf
  pub same_rest : drop (bytes_of w) out ≡ drop (bytes_of w) buf

-- The bytes of a word add up to it.
digits16 : (val : ℕ) → val < 2 ^ 16 → u8 val + u8 (val >>> 8) * 2 ^ 8 ≡ val
digits16 val h = omega arith

digits32 :
    (val : ℕ)
    → val < 2 ^ 32
    → u8 val + u8 (val >>> 8) * 2 ^ 8 + u8 (val >>> 16) * 2 ^ 16 + u8 (val >>> 24) * 2 ^ 24 ≡ val
digits32 val h = omega arith

digits64 :
    (val : ℕ)
    → val < 2 ^ 64
    → u8 val
        + u8 (val >>> 8) * 2 ^ 8
        + u8 (val >>> 16) * 2 ^ 16
        + u8 (val >>> 24) * 2 ^ 24
        + u8 (val >>> 32) * 2 ^ 32
        + u8 (val >>> 40) * 2 ^ 40
        + u8 (val >>> 48) * 2 ^ 48
        + u8 (val >>> 56) * 2 ^ 56
      ≡ val
digits64 val h =
    omega (arith, digits32 (val % 2 ^ 32) (omega arith), digits32 (val / 2 ^ 32) (omega arith))

Stored-lsb8 : (buf : List ℕ) (val : ℕ) → val < 2 ^ 8 → 1 ≤ length buf → Stored lsb w8 buf val
unfolding buf_read_une buf_write_ne
Stored-lsb8 (b0 ∷ r) val h e = record {
  out = u8 val ∷ r;
  writes = refl;
  reads = ap some (omega arith);
  same_length = refl;
  same_rest = refl;
}
Stored-lsb8 _ val h e = absurd (omega arith)

Stored-lsb16 : (buf : List ℕ) (val : ℕ) → val < 2 ^ 16 → 2 ≤ length buf → Stored lsb w16 buf val
unfolding buf_read_une buf_write_ne
Stored-lsb16 (b0 ∷ b1 ∷ r) val h e = record {
  out = u8 val ∷ u8 (val >>> 8) ∷ r;
  writes = refl;
  reads = ap some (rw (join16-sum (u8 val) (u8 (val >>> 8)) (omega arith)) (omega arith));
  same_length = refl;
  same_rest = refl;
}
Stored-lsb16 _ val h e = absurd (omega arith)

Stored-lsb32 : (buf : List ℕ) (val : ℕ) → val < 2 ^ 32 → 4 ≤ length buf → Stored lsb w32 buf val
unfolding buf_read_une buf_write_ne
Stored-lsb32 (b0 ∷ b1 ∷ b2 ∷ b3 ∷ r) val h e = record {
  out = u8 val ∷ u8 (val >>> 8) ∷ u8 (val >>> 16) ∷ u8 (val >>> 24) ∷ r;
  writes = refl;
  reads = ap some (
      rw
        (join32-sum (u8 val) (u8 (val >>> 8)) (u8 (val >>> 16)) (u8 (val >>> 24)) (omega arith)
          (omega arith) (omega arith))
        (omega arith));
  same_length = refl;
  same_rest = refl;
}
Stored-lsb32 _ val h e = absurd (omega arith)

Stored-lsb64 : (buf : List ℕ) (val : ℕ) → val < 2 ^ 64 → 8 ≤ length buf → Stored lsb w64 buf val
unfolding buf_read_une buf_write_ne
Stored-lsb64 (b0 ∷ b1 ∷ b2 ∷ b3 ∷ b4 ∷ b5 ∷ b6 ∷ b7 ∷ r) val h e = record {
  out =
      u8 val
      ∷ u8 (val >>> 8)
      ∷ u8 (val >>> 16)
      ∷ u8 (val >>> 24)
      ∷ u8 (val >>> 32)
      ∷ u8 (val >>> 40)
      ∷ u8 (val >>> 48)
      ∷ u8 (val >>> 56)
      ∷ r;
  writes = refl;
  reads = ap some (
      join64-sum (u8 val) (u8 (val >>> 8)) (u8 (val >>> 16)) (u8 (val >>> 24)) (u8 (val >>> 32))
        (u8 (val >>> 40)) (u8 (val >>> 48)) (u8 (val >>> 56)) (omega arith) (omega arith)
        (omega arith) (omega arith) (omega arith) (omega arith) (omega arith)
      ∙ digits64 val h);
  same_length = refl;
  same_rest = refl;
}
Stored-lsb64 _ val h e = absurd (omega arith)

Stored-msb8 : (buf : List ℕ) (val : ℕ) → val < 2 ^ 8 → 1 ≤ length buf → Stored msb w8 buf val
unfolding buf_read_une buf_write_ne
Stored-msb8 (b0 ∷ r) val h e = record {
  out = u8 val ∷ r;
  writes = refl;
  reads = ap some (omega arith);
  same_length = refl;
  same_rest = refl;
}
Stored-msb8 _ val h e = absurd (omega arith)

Stored-msb16 : (buf : List ℕ) (val : ℕ) → val < 2 ^ 16 → 2 ≤ length buf → Stored msb w16 buf val
unfolding buf_read_une buf_write_ne
Stored-msb16 (b0 ∷ b1 ∷ r) val h e = record {
  out = u8 (val >>> 8) ∷ u8 val ∷ r;
  writes = refl;
  reads = ap some (rw (join16-sum (u8 val) (u8 (val >>> 8)) (omega arith)) (omega arith));
  same_length = refl;
  same_rest = refl;
}
Stored-msb16 _ val h e = absurd (omega arith)

Stored-msb32 : (buf : List ℕ) (val : ℕ) → val < 2 ^ 32 → 4 ≤ length buf → Stored msb w32 buf val
unfolding buf_read_une buf_write_ne
Stored-msb32 (b0 ∷ b1 ∷ b2 ∷ b3 ∷ r) val h e = record {
  out = u8 (val >>> 24) ∷ u8 (val >>> 16) ∷ u8 (val >>> 8) ∷ u8 val ∷ r;
  writes = refl;
  reads = ap some (
      rw
        (join32-sum (u8 val) (u8 (val >>> 8)) (u8 (val >>> 16)) (u8 (val >>> 24)) (omega arith)
          (omega arith) (omega arith))
        (omega arith));
  same_length = refl;
  same_rest = refl;
}
Stored-msb32 _ val h e = absurd (omega arith)

Stored-msb64 : (buf : List ℕ) (val : ℕ) → val < 2 ^ 64 → 8 ≤ length buf → Stored msb w64 buf val
unfolding buf_read_une buf_write_ne
Stored-msb64 (b0 ∷ b1 ∷ b2 ∷ b3 ∷ b4 ∷ b5 ∷ b6 ∷ b7 ∷ r) val h e = record {
  out =
      u8 (val >>> 56)
      ∷ u8 (val >>> 48)
      ∷ u8 (val >>> 40)
      ∷ u8 (val >>> 32)
      ∷ u8 (val >>> 24)
      ∷ u8 (val >>> 16)
      ∷ u8 (val >>> 8)
      ∷ u8 val
      ∷ r;
  writes = refl;
  reads = ap some (
      join64-sum (u8 val) (u8 (val >>> 8)) (u8 (val >>> 16)) (u8 (val >>> 24)) (u8 (val >>> 32))
        (u8 (val >>> 40)) (u8 (val >>> 48)) (u8 (val >>> 56)) (omega arith) (omega arith)
        (omega arith) (omega arith) (omega arith) (omega arith) (omega arith)
      ∙ digits64 val h);
  same_length = refl;
  same_rest = refl;
}
Stored-msb64 _ val h e = absurd (omega arith)

-- In both byte orders and at every width, a word that fits is written inside a buffer that is long
-- enough, the bytes behind it stay, and the read gives the word back.
pub buf_read-buf_write :
    (o : ByteOrder) (w : Width) (buf : List ℕ) (val : ℕ)
    → val < limit_of w
    → bytes_of w ≤ length buf
    → Stored o w buf val
buf_read-buf_write lsb w8 = Stored-lsb8
buf_read-buf_write lsb w16 = Stored-lsb16
buf_read-buf_write lsb w32 = Stored-lsb32
buf_read-buf_write lsb w64 = Stored-lsb64
buf_read-buf_write msb w8 = Stored-msb8
buf_read-buf_write msb w16 = Stored-msb16
buf_read-buf_write msb w32 = Stored-msb32
buf_read-buf_write msb w64 = Stored-msb64

-- A write that succeeds had room.
buf_write-length :
    (o : ByteOrder) (w : Width) (buf : List ℕ) (val : ℕ) (out : List ℕ)
    → buf_write_ne o w buf val ≡ some out
    → bytes_of w ≤ length buf
unfolding buf_write_ne
buf_write-length lsb w8 (b0 ∷ r) val out h = omega arith
buf_write-length lsb w8 _ val out h = absurd (cc h)
buf_write-length lsb w16 (b0 ∷ b1 ∷ r) val out h = omega arith
buf_write-length lsb w16 _ val out h = absurd (cc h)
buf_write-length lsb w32 (b0 ∷ b1 ∷ b2 ∷ b3 ∷ r) val out h = omega arith
buf_write-length lsb w32 _ val out h = absurd (cc h)
buf_write-length lsb w64 (b0 ∷ b1 ∷ b2 ∷ b3 ∷ b4 ∷ b5 ∷ b6 ∷ b7 ∷ r) val out h = omega arith
buf_write-length lsb w64 _ val out h = absurd (cc h)
buf_write-length msb w8 (b0 ∷ r) val out h = omega arith
buf_write-length msb w8 _ val out h = absurd (cc h)
buf_write-length msb w16 (b0 ∷ b1 ∷ r) val out h = omega arith
buf_write-length msb w16 _ val out h = absurd (cc h)
buf_write-length msb w32 (b0 ∷ b1 ∷ b2 ∷ b3 ∷ r) val out h = omega arith
buf_write-length msb w32 _ val out h = absurd (cc h)
buf_write-length msb w64 (b0 ∷ b1 ∷ b2 ∷ b3 ∷ b4 ∷ b5 ∷ b6 ∷ b7 ∷ r) val out h = omega arith
buf_write-length msb w64 _ val out h = absurd (cc h)

-- A write of any word with room for it succeeds.
pub buf_write-ne-none :
    (o : ByteOrder) (w : Width) (buf : List ℕ) (val : ℕ)
    → bytes_of w ≤ length buf
    → buf_write_ne o w buf val ≢ none
unfolding buf_write_ne
buf_write-ne-none lsb w8 (b0 ∷ r) val h e = cc e
buf_write-ne-none lsb w8 _ val h e = absurd (omega arith)
buf_write-ne-none lsb w16 (b0 ∷ b1 ∷ r) val h e = cc e
buf_write-ne-none lsb w16 _ val h e = absurd (omega arith)
buf_write-ne-none lsb w32 (b0 ∷ b1 ∷ b2 ∷ b3 ∷ r) val h e = cc e
buf_write-ne-none lsb w32 _ val h e = absurd (omega arith)
buf_write-ne-none lsb w64 (b0 ∷ b1 ∷ b2 ∷ b3 ∷ b4 ∷ b5 ∷ b6 ∷ b7 ∷ r) val h e = cc e
buf_write-ne-none lsb w64 _ val h e = absurd (omega arith)
buf_write-ne-none msb w8 (b0 ∷ r) val h e = cc e
buf_write-ne-none msb w8 _ val h e = absurd (omega arith)
buf_write-ne-none msb w16 (b0 ∷ b1 ∷ r) val h e = cc e
buf_write-ne-none msb w16 _ val h e = absurd (omega arith)
buf_write-ne-none msb w32 (b0 ∷ b1 ∷ b2 ∷ b3 ∷ r) val h e = cc e
buf_write-ne-none msb w32 _ val h e = absurd (omega arith)
buf_write-ne-none msb w64 (b0 ∷ b1 ∷ b2 ∷ b3 ∷ b4 ∷ b5 ∷ b6 ∷ b7 ∷ r) val h e = cc e
buf_write-ne-none msb w64 _ val h e = absurd (omega arith)

pub buf_read-written :
    (o : ByteOrder) (w : Width) (buf : List ℕ) (val : ℕ) (out : List ℕ)
    → val < limit_of w
    → buf_write_ne o w buf val ≡ some out
    → buf_read_une o w out ≡ some val
buf_read-written o w buf val out lt h =
    let st = buf_read-buf_write o w buf val lt (buf_write-length o w buf val out h) in
    let same : st.out ≡ out = cc (h, st.writes) in rw (← same) st.reads
