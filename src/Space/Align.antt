-- ===== src/Space/Align.antt =====
-- Rounding up to a power of two, as src/space.c writes it.
use prelink_cross.Base.{
  ℕ, zero, suc, ◌+◌, ◌-◌, ◌*◌, ◌/◌, ◌%◌, ◌^◌, ◌<◌, ◌≤◌, ◌≡◌, ap, ◌∙◌, bit_and, add64, sub64, not64,
  arith,
}
use prelink_cross.Base.Bits.{bit_and_low, bit_and_high}
use prelink_cross.Space.{round_up}
use native.Mathlib.Nat.{
  pow-suc, one-le-pow, mod-lt, mod-eq_of_lt, mod-add-div, div-lt_iff_lt-mul, mul_comm, mul-mod_left,
}

pub pow-add : (j k : ℕ) → 2 ^ (j + k) ≡ 2 ^ j * 2 ^ k
pow-add zero k = ground arith
pow-add (suc j) k =
    let e : suc j + k ≡ suc (j + k) = omega arith in
    ap (λ (t : ℕ). 2 ^ t) e ∙ pow-suc 2 (j + k) ∙ grind (arith, pow-add j k, pow-suc 2 j)

div-mod-split : (y k : ℕ) → y % 2 ^ k + y / 2 ^ k * 2 ^ k ≡ y
div-mod-split y k =
    ap (λ (t : ℕ). y % 2 ^ k + t) (mul_comm (y / 2 ^ k) (2 ^ k)) ∙ mod-add-div y (2 ^ k)

less_one : (q p : ℕ) → 0 < q → (q - 1) * p + p ≡ q * p
less_one zero p h = absurd (omega arith)
less_one (suc q) p h = let e : suc q - 1 ≡ q = omega arith in rw e (grind arith)

-- A number with its `k` low bits cleared.
mask-high : (k y : ℕ) → k ≤ 64 → y < 2 ^ 64 → bit_and y (2 ^ 64 - 2 ^ k) ≡ y / 2 ^ k * 2 ^ k
mask-high k y h lt =
    let j = 64 - k in
    let sum : 64 ≡ j + k = omega arith in
    let whole : 2 ^ 64 ≡ 2 ^ j * 2 ^ k = ap (λ (t : ℕ). 2 ^ t) sum ∙ pow-add j k in
    let pos : 0 < 2 ^ k = one-le-pow k 2 (omega arith) in
    let pos_j : 0 < 2 ^ j = one-le-pow j 2 (omega arith) in
    let small : y / 2 ^ k < 2 ^ j = (div-lt_iff_lt-mul pos).1 (omega (arith, whole)) in
    let mask : 2 ^ 64 - 2 ^ k ≡ (2 ^ j - 1) * 2 ^ k =
      omega (arith, whole, less_one (2 ^ j) (2 ^ k) pos_j) in
    let split : y ≡ y % 2 ^ k + y / 2 ^ k * 2 ^ k = omega (arith, div-mod-split y k) in
    let low : bit_and (y / 2 ^ k) (2 ^ j - 1) ≡ y / 2 ^ k =
      bit_and_low j (y / 2 ^ k) ∙ mod-eq_of_lt small in
    let high : bit_and (y % 2 ^ k + y / 2 ^ k * 2 ^ k) ((2 ^ j - 1) * 2 ^ k)
        ≡ bit_and (y / 2 ^ k) (2 ^ j - 1) * 2 ^ k =
      bit_and_high k (y / 2 ^ k) (y % 2 ^ k) (2 ^ j - 1) (mod-lt y pos) in
    ap (λ t. bit_and t (2 ^ 64 - 2 ^ k)) split
    ∙ ap (λ t. bit_and (y % 2 ^ k + y / 2 ^ k * 2 ^ k) t) mask
    ∙ high
    ∙ ap (λ (t : ℕ). t * 2 ^ k) low

sub64-one : (x k : ℕ) → x + 2 ^ k ≤ 2 ^ 64 → 0 < 2 ^ k → sub64 (add64 x (2 ^ k)) 1 ≡ x + 2 ^ k - 1
sub64-one x k room pos = omega arith

pub round_up-parts :
    (k x : ℕ)
    → k ≤ 63
    → x + 2 ^ k ≤ 2 ^ 64
    → (round_up x (2 ^ k) % 2 ^ k ≡ 0) × (x ≤ round_up x (2 ^ k)) × (round_up x (2 ^ k) < x + 2 ^ k)
unfolding round_up
round_up-parts k x h room =
    let pos : 0 < 2 ^ k = one-le-pow k 2 (omega arith) in
    let y = sub64 (add64 x (2 ^ k)) 1 in
    let value : y ≡ x + 2 ^ k - 1 = sub64-one x k room pos in
    let mask : not64 (sub64 (2 ^ k) 1) ≡ 2 ^ 64 - 2 ^ k = omega arith in
    let e : round_up x (2 ^ k) ≡ y / 2 ^ k * 2 ^ k =
      ap (λ t. bit_and y t) mask ∙ mask-high k y (omega arith) (omega arith) in
    let d = div-mod-split y k in
    let lt = mod-lt y pos in (rw e (mul-mod_left (y / 2 ^ k) (2 ^ k)), omega arith, omega arith)
