-- ===== src/Base/Bits.antt =====
-- `|`, `&` and `^` as arithmetic, at every width. Each law goes from `a / 2` to `a`.
use Prim.Native.Nat.{
  ℕ, zero, suc, ◌+◌, ◌-◌, ◌*◌, ◌/◌, ◌%◌, ◌^◌, ◌≤◌, ◌<◌, min, max, digits, bit_and, bit_or,
  bit_and-bitwise, bit_or-bitwise, bit_xor, bit_xor-bitwise, differ,
}
use mathlib.Core.Path.{◌≡◌, refl, ap, ◌∙◌}
use native.Mathlib.Nat.{pow-suc, one-le-pow}
use native.Mathlib.Omega.{arith}

-- Any two counts that cover the first number's digits give the same result.
module _ (z : ℕ → ℕ) (f : ℕ → ℕ → ℕ) where
  digits_enough : (n k a b : ℕ) → a ≤ n → a ≤ k → digits z f n a b ≡ digits z f k a b
  digits_enough zero zero a b h g = refl
  digits_enough zero (suc k) zero b h g = refl
  digits_enough zero (suc k) (suc a) b h g = absurd (omega arith)
  digits_enough (suc n) zero zero b h g = refl
  digits_enough (suc n) zero (suc a) b h g = absurd (omega arith)
  digits_enough (suc n) (suc k) zero b h g = refl
  digits_enough (suc n) (suc k) (suc a) b h g =
      ap (λ t. t * 2 + f (suc a % 2) (b % 2))
        (digits_enough n k (suc a / 2) (b / 2) (omega arith) (omega arith))

-- The lowest digit of `|` and of `&`.
pub bit_or_digit : (a b : ℕ) → bit_or a b ≡ bit_or (a / 2) (b / 2) * 2 + max (a % 2) (b % 2)
bit_or_digit zero b = omega (arith, bit_or-bitwise 0 b, bit_or-bitwise 0 (b / 2))
bit_or_digit (suc a) b = omega (
  arith,
  bit_or-bitwise (suc a) b,
  bit_or-bitwise (suc a / 2) (b / 2),
  digits_enough (λ y. y) max a (suc a / 2) (suc a / 2) (b / 2) (omega arith) (omega arith),
)

pub bit_and_digit : (a b : ℕ) → bit_and a b ≡ bit_and (a / 2) (b / 2) * 2 + min (a % 2) (b % 2)
bit_and_digit zero b = omega (arith, bit_and-bitwise 0 b, bit_and-bitwise 0 (b / 2))
bit_and_digit (suc a) b = omega (
  arith,
  bit_and-bitwise (suc a) b,
  bit_and-bitwise (suc a / 2) (b / 2),
  digits_enough (λ y. 0) min a (suc a / 2) (suc a / 2) (b / 2) (omega arith) (omega arith),
)

zero-bit_or : (b : ℕ) → bit_or 0 b ≡ b
zero-bit_or b = bit_or-bitwise 0 b

bit_and-zero_below : (n a : ℕ) → a ≤ n → bit_and a 0 ≡ 0
bit_and-zero_below n zero h = refl
bit_and-zero_below zero (suc a) h = absurd (omega arith)
bit_and-zero_below (suc n) (suc a) h =
    omega (arith, bit_and_digit (suc a) 0, bit_and-zero_below n (suc a / 2) (omega arith))

pub bit_and-zero : (a : ℕ) → bit_and a 0 ≡ 0
bit_and-zero a = bit_and-zero_below a a (omega arith)

pub zero-bit_and : (b : ℕ) → bit_and 0 b ≡ 0
zero-bit_and b = bit_and-bitwise 0 b

bit_and_le_below : (n a b : ℕ) → a ≤ n → bit_and a b ≤ a
bit_and_le_below n zero b h = omega (arith, zero-bit_and b)
bit_and_le_below zero (suc a) b h = absurd (omega arith)
bit_and_le_below (suc n) (suc a) b h =
    omega (arith, bit_and_digit (suc a) b, bit_and_le_below n (suc a / 2) (b / 2) (omega arith))

pub bit_and_le : (a b : ℕ) → bit_and a b ≤ a
bit_and_le a b = bit_and_le_below a a b (omega arith)

twice_pow : (q k : ℕ) → q * 2 ^ suc k ≡ q * 2 ^ k * 2
twice_pow q k = omega (arith, ap (λ (t : ℕ). q * t) (pow-suc 2 k))

-- `low | (high << k)` is a sum when `low` fits `k` bits.
pub bit_or_join : (k low high : ℕ) → low < 2 ^ k → bit_or low (high * 2 ^ k) ≡ low + high * 2 ^ k
bit_or_join zero low high fits =
    let e : low ≡ 0 = omega arith in rw e (zero-bit_or (high * 2 ^ 0) ∙ omega arith)
bit_or_join (suc k) low high fits = ground (
  arith,
  bit_or_digit low (high * 2 ^ suc k),
  twice_pow high k,
  pow-suc 2 k,
  bit_or_join k (low / 2) high (omega (arith, pow-suc 2 k)),
)

-- A mask of `k` low bits keeps the part of a number below `2 ^ k`.
bit_and_split : (k q r : ℕ) → r < 2 ^ k → bit_and (r + q * 2 ^ k) (2 ^ k - 1) ≡ r
bit_and_split zero q r h = bit_and-zero (r + q * 2 ^ 0) ∙ omega arith
bit_and_split (suc k) q r h = ground (
  arith,
  bit_and_digit (r + q * 2 ^ suc k) (2 ^ suc k - 1),
  twice_pow q k,
  pow-suc 2 k,
  one-le-pow k 2,
  bit_and_split k q (r / 2) (omega (arith, pow-suc 2 k)),
)

-- `a & (2^k - 1)` is the remainder.
pub bit_and_low : (k a : ℕ) → bit_and a (2 ^ k - 1) ≡ a % 2 ^ k
bit_and_low k a = ground (arith, one-le-pow k 2, bit_and_split k (a / 2 ^ k) (a % 2 ^ k))

-- A mask with `k` low zeros passes over the low part.
pub bit_and_high :
    (k q r m : ℕ) → r < 2 ^ k → bit_and (r + q * 2 ^ k) (m * 2 ^ k) ≡ bit_and q m * 2 ^ k
bit_and_high zero q r m h =
    let e : r + q * 2 ^ 0 ≡ q = omega arith in
    let g : m * 2 ^ 0 ≡ m = omega arith in rw (e, g) (omega arith)
bit_and_high (suc k) q r m h = ground (
  arith,
  bit_and_digit (r + q * 2 ^ suc k) (m * 2 ^ suc k),
  twice_pow q k,
  twice_pow m k,
  twice_pow (bit_and q m) k,
  pow-suc 2 k,
  bit_and_high k q (r / 2) m (omega (arith, pow-suc 2 k)),
)

differ_zero : (y : ℕ) → differ 0 y ≡ y
differ_zero y = refl

pub bit_xor_digit : (a b : ℕ) → bit_xor a b ≡ bit_xor (a / 2) (b / 2) * 2 + differ (a % 2) (b % 2)
bit_xor_digit zero b =
    omega (arith, bit_xor-bitwise 0 b, bit_xor-bitwise 0 (b / 2), differ_zero (b % 2))
bit_xor_digit (suc a) b = omega (
  arith,
  bit_xor-bitwise (suc a) b,
  bit_xor-bitwise (suc a / 2) (b / 2),
  digits_enough (λ y. y) differ a (suc a / 2) (suc a / 2) (b / 2) (omega arith) (omega arith),
)

pub differ-lt : (x y k : ℕ) → x < k → y < k → differ x y < k
differ-lt zero y k h g = g
differ-lt (suc x) zero k h g = h
differ-lt (suc x) (suc y) k h g = differ-lt x y k (omega arith) (omega arith)

-- An exclusive or needs no more digits than its arguments.
pub bit_xor-lt : (k a b : ℕ) → a < 2 ^ k → b < 2 ^ k → bit_xor a b < 2 ^ k
bit_xor-lt zero a b h g =
    let e : a ≡ 0 = omega arith in let f : b ≡ 0 = omega arith in rw (e, f) (omega arith)
bit_xor-lt (suc k) a b h g = omega (
  arith,
  bit_xor_digit a b,
  pow-suc 2 k,
  differ-lt (a % 2) (b % 2) 2 (omega arith) (omega arith),
  bit_xor-lt k (a / 2) (b / 2) (omega (arith, pow-suc 2 k)) (omega (arith, pow-suc 2 k)),
)

differ-self_zero : (x : ℕ) → differ x 0 ≡ x
differ-self_zero zero = refl
differ-self_zero (suc x) = refl

-- An exclusive or with a number whose `k` low bits are zero keeps the low part.
pub bit_xor_join :
    (k r q m : ℕ) → r < 2 ^ k → bit_xor (r + q * 2 ^ k) (m * 2 ^ k) ≡ r + bit_xor q m * 2 ^ k
bit_xor_join zero r q m h =
    let e : r + q * 2 ^ 0 ≡ q = omega arith in
    let g : m * 2 ^ 0 ≡ m = omega arith in rw (e, g) (omega arith)
bit_xor_join (suc k) r q m h = ground (
  arith,
  bit_xor_digit (r + q * 2 ^ suc k) (m * 2 ^ suc k),
  twice_pow q k,
  twice_pow m k,
  twice_pow (bit_xor q m) k,
  pow-suc 2 k,
  differ-self_zero (r % 2),
  bit_xor_join k (r / 2) q m (omega (arith, pow-suc 2 k)),
)

bit_or-zero_below : (n a : ℕ) → a ≤ n → bit_or a 0 ≡ a
bit_or-zero_below n zero h = zero-bit_or 0
bit_or-zero_below zero (suc a) h = absurd (omega arith)
bit_or-zero_below (suc n) (suc a) h =
    omega (arith, bit_or_digit (suc a) 0, bit_or-zero_below n (suc a / 2) (omega arith))

-- `high << k | low`, and `|` with a number whose `k` low bits are zero.
pub bit_or_join_left :
    (k low high : ℕ) → low < 2 ^ k → bit_or (high * 2 ^ k) low ≡ high * 2 ^ k + low
bit_or_join_left zero low high fits =
    let e : low ≡ 0 = omega arith in
    rw e (bit_or-zero_below (high * 2 ^ 0) (high * 2 ^ 0) (omega arith) ∙ omega arith)
bit_or_join_left (suc k) low high fits = ground (
  arith,
  bit_or_digit (high * 2 ^ suc k) low,
  twice_pow high k,
  pow-suc 2 k,
  bit_or_join_left k (low / 2) high (omega (arith, pow-suc 2 k)),
)

pub bit_or_high :
    (k r q m : ℕ) → r < 2 ^ k → bit_or (r + q * 2 ^ k) (m * 2 ^ k) ≡ r + bit_or q m * 2 ^ k
bit_or_high zero r q m h =
    let e : r + q * 2 ^ 0 ≡ q = omega arith in
    let g : m * 2 ^ 0 ≡ m = omega arith in rw (e, g) (omega arith)
bit_or_high (suc k) r q m h = ground (
  arith,
  bit_or_digit (r + q * 2 ^ suc k) (m * 2 ^ suc k),
  twice_pow q k,
  twice_pow m k,
  twice_pow (bit_or q m) k,
  pow-suc 2 k,
  bit_or_high k (r / 2) q m (omega (arith, pow-suc 2 k)),
)
