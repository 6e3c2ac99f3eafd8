-- ===== src/Bytes.antt =====
-- src/data.c, the `buf_read_*` and `buf_write_*` functions: words in a buffer of bytes, in both
-- byte orders. A pointer is the list of the bytes from it to the end of its buffer, and `none` is
-- an access past that end, which C leaves undefined.
pub mod Sums
pub mod RoundTrip
pub mod Restore
mod Tests
use prelink_cross.Base.{
  ℕ, ◌^◌, Bool, true, false, Option, none, some, List, [], ◌∷◌, bit_or, u8, u16, u32, ◌<<<◌, ◌>>>◌,
}

-- EI_DATA of the ELF header: ELFDATA2LSB or ELFDATA2MSB.
pub data ByteOrder : Type 0 where
  lsb msb : ByteOrder

-- The `nn` of the macros READWRITE and READWRITESIZE.
pub data Width : Type 0 where
  w8 w16 w32 w64 : Width

abbrev pub bytes_of : Width → ℕ
bytes_of w8 = 1
bytes_of w16 = 2
bytes_of w32 = 4
bytes_of w64 = 8

-- One more than the greatest value of `uint##nn##_t`.
abbrev pub limit_of : Width → ℕ
limit_of w8 = 2 ^ 8
limit_of w16 = 2 ^ 16
limit_of w32 = 2 ^ 32
limit_of w64 = 2 ^ 64

pub buf_read_u8 : List ℕ → Option ℕ
buf_read_u8 (b0 ∷ r) = some b0
buf_read_u8 _ = none

pub buf_read_ule16 : List ℕ → Option ℕ
buf_read_ule16 (b0 ∷ b1 ∷ r) = some (u16 (bit_or b0 (b1 <<< 8)))
buf_read_ule16 _ = none

pub buf_read_ube16 : List ℕ → Option ℕ
buf_read_ube16 (b0 ∷ b1 ∷ r) = some (u16 (bit_or b1 (b0 <<< 8)))
buf_read_ube16 _ = none

-- `data[3] << 24` is an `int` in C; its conversion to `uint32_t` keeps the 32 bits.
pub buf_read_ule32 : List ℕ → Option ℕ
buf_read_ule32 (b0 ∷ b1 ∷ b2 ∷ b3 ∷ r) =
    some (u32 (bit_or (bit_or (bit_or b0 (b1 <<< 8)) (b2 <<< 16)) (b3 <<< 24)))
buf_read_ule32 _ = none

pub buf_read_ube32 : List ℕ → Option ℕ
buf_read_ube32 (b0 ∷ b1 ∷ b2 ∷ b3 ∷ r) =
    some (u32 (bit_or (bit_or (bit_or b3 (b2 <<< 8)) (b1 <<< 16)) (b0 <<< 24)))
buf_read_ube32 _ = none

-- The eight bytes are joined from the lowest, whichever end of the buffer it stands at.
abbrev pub join64 : ℕ → ℕ → ℕ → ℕ → ℕ → ℕ → ℕ → ℕ → ℕ
join64 b0 b1 b2 b3 b4 b5 b6 b7 =
    let low = bit_or (bit_or b0 (b1 <<< 8)) (b2 <<< 16) in
    let low = bit_or (bit_or low (b3 <<< 24)) (b4 <<< 32) in
    bit_or (bit_or (bit_or low (b5 <<< 40)) (b6 <<< 48)) (b7 <<< 56)

pub buf_read_ule64 : List ℕ → Option ℕ
buf_read_ule64 (b0 ∷ b1 ∷ b2 ∷ b3 ∷ b4 ∷ b5 ∷ b6 ∷ b7 ∷ r) = some (join64 b0 b1 b2 b3 b4 b5 b6 b7)
buf_read_ule64 _ = none

pub buf_read_ube64 : List ℕ → Option ℕ
buf_read_ube64 (b0 ∷ b1 ∷ b2 ∷ b3 ∷ b4 ∷ b5 ∷ b6 ∷ b7 ∷ r) = some (join64 b7 b6 b5 b4 b3 b2 b1 b0)
buf_read_ube64 _ = none

pub buf_write_8 : List ℕ → ℕ → Option (List ℕ)
buf_write_8 (_ ∷ r) val = some (u8 val ∷ r)
buf_write_8 _ val = none

pub buf_write_le16 : List ℕ → ℕ → Option (List ℕ)
buf_write_le16 (_ ∷ _ ∷ r) val = some (u8 val ∷ u8 (val >>> 8) ∷ r)
buf_write_le16 _ val = none

pub buf_write_be16 : List ℕ → ℕ → Option (List ℕ)
buf_write_be16 (_ ∷ _ ∷ r) val = some (u8 (val >>> 8) ∷ u8 val ∷ r)
buf_write_be16 _ val = none

pub buf_write_le32 : List ℕ → ℕ → Option (List ℕ)
buf_write_le32 (_ ∷ _ ∷ _ ∷ _ ∷ r) val =
    some (u8 val ∷ u8 (val >>> 8) ∷ u8 (val >>> 16) ∷ u8 (val >>> 24) ∷ r)
buf_write_le32 _ val = none

pub buf_write_be32 : List ℕ → ℕ → Option (List ℕ)
buf_write_be32 (_ ∷ _ ∷ _ ∷ _ ∷ r) val =
    some (u8 (val >>> 24) ∷ u8 (val >>> 16) ∷ u8 (val >>> 8) ∷ u8 val ∷ r)
buf_write_be32 _ val = none

pub buf_write_le64 : List ℕ → ℕ → Option (List ℕ)
buf_write_le64 (_ ∷ _ ∷ _ ∷ _ ∷ _ ∷ _ ∷ _ ∷ _ ∷ r) val = some (
    u8 val
    ∷ u8 (val >>> 8)
    ∷ u8 (val >>> 16)
    ∷ u8 (val >>> 24)
    ∷ u8 (val >>> 32)
    ∷ u8 (val >>> 40)
    ∷ u8 (val >>> 48)
    ∷ u8 (val >>> 56)
    ∷ r)
buf_write_le64 _ val = none

pub buf_write_be64 : List ℕ → ℕ → Option (List ℕ)
buf_write_be64 (_ ∷ _ ∷ _ ∷ _ ∷ _ ∷ _ ∷ _ ∷ _ ∷ r) val = some (
    u8 (val >>> 56)
    ∷ u8 (val >>> 48)
    ∷ u8 (val >>> 40)
    ∷ u8 (val >>> 32)
    ∷ u8 (val >>> 24)
    ∷ u8 (val >>> 16)
    ∷ u8 (val >>> 8)
    ∷ u8 val
    ∷ r)
buf_write_be64 _ val = none

-- The function that the macros name by pasting `le` or `be` and `nn`; `buf_read_une##nn` takes
-- the order from the header of the DSO.
unfoldable pub buf_read_une : ByteOrder → Width → List ℕ → Option ℕ
unfolding buf_read_u8 buf_read_ule16 buf_read_ube16 buf_read_ule32 buf_read_ube32 buf_read_ule64
    buf_read_ube64
buf_read_une lsb w8 = buf_read_u8
buf_read_une lsb w16 = buf_read_ule16
buf_read_une lsb w32 = buf_read_ule32
buf_read_une lsb w64 = buf_read_ule64
buf_read_une msb w8 = buf_read_u8
buf_read_une msb w16 = buf_read_ube16
buf_read_une msb w32 = buf_read_ube32
buf_read_une msb w64 = buf_read_ube64

unfoldable pub buf_write_ne : ByteOrder → Width → List ℕ → ℕ → Option (List ℕ)
unfolding buf_write_8 buf_write_le16 buf_write_be16 buf_write_le32 buf_write_be32 buf_write_le64
    buf_write_be64
buf_write_ne lsb w8 = buf_write_8
buf_write_ne lsb w16 = buf_write_le16
buf_write_ne lsb w32 = buf_write_le32
buf_write_ne lsb w64 = buf_write_le64
buf_write_ne msb w8 = buf_write_8
buf_write_ne msb w16 = buf_write_be16
buf_write_ne msb w32 = buf_write_be32
buf_write_ne msb w64 = buf_write_be64
