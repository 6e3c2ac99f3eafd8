-- ===== src/Ppc/Fields.antt =====
-- What the fields of PowerPC instructions hold.
use prelink_cross.Base.{
  ℕ, ◌+◌, ◌-◌, ◌*◌, ◌%◌, ◌^◌, ◌<◌, ◌≤◌, ◌≡◌, refl, ap, ◌∙◌, bit_and, bit_xor, sub64, ◌>>>◌, ltb, u8,
  arith, Bool-cases, inl, inr, some, List, ◌∷◌,
}
use prelink_cross.Base.Bits.{bit_and_low, bit_xor_join}
use prelink_cross.Bytes.{msb, w16, w32, buf_write_ne}
use prelink_cross.Ppc.Words.{sword, sign_16}

xor_16 :
    (v : ℕ)
    → v < 2 ^ 16
    → (v < 2 ^ 15 → bit_xor v 0x8000 ≡ v + 2 ^ 15) × (2 ^ 15 ≤ v → bit_xor v 0x8000 ≡ v - 2 ^ 15)
xor_16 v h = (
  (λ lt.
      let e : v ≡ v + 0 * 2 ^ 15 = omega arith in
      let j : bit_xor (v + 0 * 2 ^ 15) (1 * 2 ^ 15) ≡ v + bit_xor 0 1 * 2 ^ 15 =
        bit_xor_join 15 v 0 1 lt in
      ap (λ t. bit_xor t 0x8000) e ∙ j),
  (λ le.
      let e : v ≡ (v - 2 ^ 15) + 1 * 2 ^ 15 = omega arith in
      let j : bit_xor ((v - 2 ^ 15) + 1 * 2 ^ 15) (1 * 2 ^ 15)
          ≡ (v - 2 ^ 15) + bit_xor 1 1 * 2 ^ 15 =
        bit_xor_join 15 (v - 2 ^ 15) 1 1 (omega arith) in
      ap (λ t. bit_xor t 0x8000) e ∙ j ∙ omega arith),
)

-- A number of 16 bits, read with its sign: on 64 bits it has its 16 bits, and the others are the
-- highest of them.
pub sign_16-parts :
    (value : ℕ)
    → (value % 2 ^ 16 < 2 ^ 15 → sign_16 value ≡ value % 2 ^ 16)
      × (2 ^ 15 ≤ value % 2 ^ 16 → sign_16 value ≡ value % 2 ^ 16 + (2 ^ 64 - 2 ^ 16))
unfolding sign_16
sign_16-parts value =
    let m : bit_and value 0xffff ≡ value % 2 ^ 16 = bit_and_low 16 value in
    let x = xor_16 (value % 2 ^ 16) (omega arith) in
    (
      (λ lt.
          let e : sign_16 value ≡ sub64 (value % 2 ^ 16 + 2 ^ 15) 0x8000 =
            ap (λ t. sub64 (bit_xor t 0x8000) 0x8000) m ∙ ap (λ t. sub64 t 0x8000) (x.0 lt) in
          e ∙ omega arith),
      (λ le.
          let e : sign_16 value ≡ sub64 (value % 2 ^ 16 - 2 ^ 15) 0x8000 =
            ap (λ t. sub64 (bit_xor t 0x8000) 0x8000) m ∙ ap (λ t. sub64 t 0x8000) (x.1 le) in
          e ∙ omega arith),
    )

pub sign_16-mod : (value : ℕ) → sign_16 value % 2 ^ 16 ≡ value % 2 ^ 16
sign_16-mod value = elim (Bool-cases (ltb (value % 2 ^ 16) (2 ^ 15))) [
  | inl p ↦ let e = (sign_16-parts value).0 (ground arith) in omega arith
  | inr p ↦ let e = (sign_16-parts value).1 (ground arith) in omega arith
]

pub sword-mod : (x : ℕ) → sword x % 2 ^ 32 ≡ x % 2 ^ 32
unfolding sword
sword-mod x = ground arith

-- A write looks at the low bits only.
pub buf_write-mod_32 :
    (buf : List ℕ) (x y : ℕ)
    → x % 2 ^ 32 ≡ y % 2 ^ 32
    → buf_write_ne msb w32 buf x ≡ buf_write_ne msb w32 buf y
unfolding buf_write_ne
buf_write-mod_32 (_ ∷ _ ∷ _ ∷ _ ∷ r) x y e =
    let a : u8 (x >>> 24) ≡ u8 (y >>> 24) = omega arith in
    let b : u8 (x >>> 16) ≡ u8 (y >>> 16) = omega arith in
    let c : u8 (x >>> 8) ≡ u8 (y >>> 8) = omega arith in
    let d : u8 x ≡ u8 y = omega arith in λ i. some (a i ∷ b i ∷ c i ∷ d i ∷ r)
buf_write-mod_32 _ x y e = refl

pub buf_write-mod_16 :
    (buf : List ℕ) (x y : ℕ)
    → x % 2 ^ 16 ≡ y % 2 ^ 16
    → buf_write_ne msb w16 buf x ≡ buf_write_ne msb w16 buf y
unfolding buf_write_ne
buf_write-mod_16 (_ ∷ _ ∷ r) x y e =
    let c : u8 (x >>> 8) ≡ u8 (y >>> 8) = omega arith in
    let d : u8 x ≡ u8 y = omega arith in λ i. some (c i ∷ d i ∷ r)
buf_write-mod_16 _ x y e = refl

-- The addend that `ret` gets, written as a word or as a half word.
pub buf_write-sword :
    (buf : List ℕ) (x : ℕ) → buf_write_ne msb w32 buf (sword x) ≡ buf_write_ne msb w32 buf x
buf_write-sword buf x = buf_write-mod_32 buf (sword x) x (sword-mod x)

pub buf_write-sign_16 :
    (buf : List ℕ) (x : ℕ)
    → buf_write_ne msb w16 buf (sword (sign_16 x)) ≡ buf_write_ne msb w16 buf x
buf_write-sign_16 buf x =
    buf_write-mod_16 buf (sword (sign_16 x)) x (omega (arith, sword-mod (sign_16 x), sign_16-mod x))
