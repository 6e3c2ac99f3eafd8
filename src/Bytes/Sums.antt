-- ===== src/Bytes/Sums.antt =====
-- The words that the reads of data.c join by `|` are sums of their bytes.
use prelink_cross.Base.{ℕ, ◌+◌, ◌*◌, ◌^◌, ◌<◌, ◌≡◌, arith, bit_or, ◌<<<◌}
use prelink_cross.Base.Bits.{bit_or_join}
use prelink_cross.Bytes.{join64}

pub join16-sum : (b0 b1 : ℕ) → b0 < 256 → bit_or b0 (b1 <<< 8) ≡ b0 + b1 * 2 ^ 8
join16-sum b0 b1 h0 = bit_or_join 8 b0 b1 h0

pub join24-sum :
    (b0 b1 b2 : ℕ)
    → b0 < 256
    → b1 < 256
    → bit_or (bit_or b0 (b1 <<< 8)) (b2 <<< 16) ≡ b0 + b1 * 2 ^ 8 + b2 * 2 ^ 16
join24-sum b0 b1 b2 h0 h1 =
    rw (join16-sum b0 b1 h0) (bit_or_join 16 (b0 + b1 * 2 ^ 8) b2 (omega arith))

pub join32-sum :
    (b0 b1 b2 b3 : ℕ)
    → b0 < 256
    → b1 < 256
    → b2 < 256
    → bit_or (bit_or (bit_or b0 (b1 <<< 8)) (b2 <<< 16)) (b3 <<< 24)
      ≡ b0 + b1 * 2 ^ 8 + b2 * 2 ^ 16 + b3 * 2 ^ 24
join32-sum b0 b1 b2 b3 h0 h1 h2 =
    rw (join24-sum b0 b1 b2 h0 h1) (bit_or_join 24 (b0 + b1 * 2 ^ 8 + b2 * 2 ^ 16) b3 (omega arith))

pub join64-sum :
    (b0 b1 b2 b3 b4 b5 b6 b7 : ℕ)
    → b0 < 256
    → b1 < 256
    → b2 < 256
    → b3 < 256
    → b4 < 256
    → b5 < 256
    → b6 < 256
    → join64 b0 b1 b2 b3 b4 b5 b6 b7
      ≡ b0
        + b1 * 2 ^ 8
        + b2 * 2 ^ 16
        + b3 * 2 ^ 24
        + b4 * 2 ^ 32
        + b5 * 2 ^ 40
        + b6 * 2 ^ 48
        + b7 * 2 ^ 56
join64-sum b0 b1 b2 b3 b4 b5 b6 b7 h0 h1 h2 h3 h4 h5 h6 =
    let s4 = b0 + b1 * 2 ^ 8 + b2 * 2 ^ 16 + b3 * 2 ^ 24 in
    rw
      (
        join32-sum b0 b1 b2 b3 h0 h1 h2,
        bit_or_join 32 s4 b4 (omega arith),
        bit_or_join 40 (s4 + b4 * 2 ^ 32) b5 (omega arith),
        bit_or_join 48 (s4 + b4 * 2 ^ 32 + b5 * 2 ^ 40) b6 (omega arith),
      )
      (bit_or_join 56 (s4 + b4 * 2 ^ 32 + b5 * 2 ^ 40 + b6 * 2 ^ 48) b7 (omega arith))
