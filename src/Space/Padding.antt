-- ===== src/Space/Padding.antt =====
-- Padding a number of bytes to a power of two, in adjust_nonalloc of src/dso.c.
use prelink_cross.Base.{
  ℕ, suc, ◌+◌, ◌-◌, ◌*◌, ◌/◌, ◌%◌, ◌^◌, ◌<◌, ◌≤◌, ◌≡◌, inl, inr, ap, sym, ◌∙◌, bit_and, sub64, leb,
  ◌==◌, Bool-cases, arith,
}
use prelink_cross.Base.Bits.{bit_and_low}
use prelink_cross.Space.{padded}
use prelink_cross.Space.Align.{pow-add, round_up-parts}
use native.Mathlib.Nat.{
  one-le-pow, mod-add-div, mul_comm, mul-mod_left, mul_assoc, mul-le-mul_right,
}

multiple : (y p : ℕ) → y % p ≡ 0 → y ≡ y / p * p
multiple y p h = let e = mod-add-div y p in let c = mul_comm (y / p) p in omega arith

-- A multiple of a power of two is one of each smaller power.
pub smaller_power : (j k y : ℕ) → j ≤ k → y % 2 ^ k ≡ 0 → y % 2 ^ j ≡ 0
smaller_power j k y le h =
    let q = y / 2 ^ k in
    let i = k - j in
    let sum : k ≡ i + j = omega arith in
    let e : y ≡ q * 2 ^ i * 2 ^ j =
      multiple y (2 ^ k) h
      ∙ ap (λ (t : ℕ). q * 2 ^ t) sum
      ∙ ap (λ (t : ℕ). q * t) (pow-add i j)
      ∙ sym (mul_assoc q (2 ^ i) (2 ^ j)) in
    ap (λ (t : ℕ). t % 2 ^ j) e ∙ mul-mod_left (q * 2 ^ i) (2 ^ j)

-- Of two multiples, the one that is less than the next after the other is not above it.
pub multiple_le : (x y p : ℕ) → x % p ≡ 0 → y % p ≡ 0 → x < y + p → x ≤ y
multiple_le x y p hx hy lt =
    let ex = multiple x p hx in
    let ey = multiple y p hy in
    elim (Bool-cases (leb (x / p) (y / p))) [
      | inl le ↦ let m = mul-le-mul_right {m = x / p} {n = y / p} p (ground arith) in omega arith
      | inr gt ↦
          let m = mul-le-mul_right {m = suc (y / p)} {n = x / p} p (ground arith) in
          let e : suc (y / p) * p ≡ y / p * p + p = grind arith in absurd (omega arith)
    ]

-- What padding to a power of two does.
abbrev pub Pads : ℕ → ℕ → ℕ → Type 0
Pads k x r = (r % 2 ^ k ≡ 0) × (x ≤ r) × (r < x + 2 ^ k) × ((j : ℕ) → x % 2 ^ j ≡ 0 → r % 2 ^ j ≡ 0)

pub padded-Pads : (k x : ℕ) → k ≤ 63 → x + 2 ^ k ≤ 2 ^ 64 → Pads k x (padded x (2 ^ k))
padded-Pads k x h room =
    let pos : 0 < 2 ^ k = one-le-pow k 2 (omega arith) in
    let mask : sub64 (2 ^ k) 1 ≡ 2 ^ k - 1 = omega arith in
    let low : bit_and x (sub64 (2 ^ k) 1) ≡ x % 2 ^ k =
      ap (λ t. bit_and x t) mask ∙ bit_and_low k x in
    elim (Bool-cases (bit_and x (sub64 (2 ^ k) 1) == 0)) [
      | inl c ↦ let e : x % 2 ^ k ≡ 0 = ground arith in rw c (e, omega arith, omega arith, λ j m. m)
      | inr c ↦
          let parts = round_up-parts k x h room in
          let ne : ¬ (x % 2 ^ k ≡ 0) = λ e. ground arith in
          rw c (
            parts.0,
            parts.1,
            parts.2,
            λ j m. elim (Bool-cases (leb j k)) [
              | inl le ↦ smaller_power j k _ (ground arith) parts.0
              | inr gt ↦ absurd (ne (smaller_power k j x (ground arith) m))
            ],
          )
    ]
