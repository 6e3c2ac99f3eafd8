-- ===== src/Dwarf2/Uleb.antt =====
-- What `read_uleb128` returns, and the numbers that it reads back.
use prelink_cross.Base.{
  ℕ, zero, suc, ◌+◌, ◌*◌, ◌/◌, ◌%◌, ◌^◌, ◌≤◌, ◌<◌, ◌≡◌, refl, sym, ap, subst, ◌∙◌, ◌⊎◌, inl, inr,
  true, false, some, List, [], ◌∷◌, ◌++◌, arith, bit_and, bit_or, leb, ltb, ltb→lt, leb→le, ◌==◌,
  if◌then◌else◌, Bool-cases, length, u32, ◌<<<◌, All, Any,
}
use prelink_cross.Base.Bits.{bit_and_low, bit_and_high, bit_or_join}
use prelink_cross.Dwarf2.{uint_max, uleb_loop, read_uleb128}
use native.Mathlib.Nat.{div-add-mod, mul-le-mul_right}
use native.Mathlib.Numerals.{towards_suc}

abbrev pub IsByte : ℕ → Type 0
IsByte c = c < 256

low_group : (c : ℕ) → bit_and c 0x7f ≡ c % 128
low_group c = bit_and_low 7 c

top_bit : (c : ℕ) → bit_and c 0x80 ≡ bit_and (c / 128) 1 * 128
top_bit c =
    ap (λ n. bit_and n 0x80) (omega arith) ∙ bit_and_high 7 (c / 128) (c % 128) 1 (omega arith)

pub last_byte : (c : ℕ) → c < 128 → (bit_and c 0x80 == 0) ≡ true
last_byte c h =
    let q : c / 128 ≡ 0 = omega arith in
    let e : bit_and c 0x80 ≡ 0 = top_bit c ∙ rw q refl in rw e refl

pub inner_byte : (c : ℕ) → IsByte c → 128 ≤ c → (bit_and c 0x80 == 0) ≡ false
inner_byte c b h =
    let q : c / 128 ≡ 1 = omega arith in
    let e : bit_and c 0x80 ≡ 128 = top_bit c ∙ rw q refl in rw e refl

next_power : (j : ℕ) → 2 ^ (7 * j + 7) ≡ 128 * 2 ^ (7 * j)
next_power j = simp towards_suc (omega arith)

power_le : (j : ℕ) → j ≤ 3 → 128 * 2 ^ (7 * j) ≤ 2 ^ 28
power_le zero h = omega arith
power_le (suc zero) h = omega arith
power_le (suc (suc zero)) h = omega arith
power_le (suc (suc (suc zero))) h = omega arith
power_le (suc (suc (suc (suc j)))) h = absurd (omega arith)

group_fits : (j ret g : ℕ) → g < 128 → ret < 2 ^ (7 * j) → ret + g * 2 ^ (7 * j) < 2 ^ (7 * (j + 1))
group_fits j ret g h fits =
    let at : 7 * (j + 1) ≡ 7 * j + 7 = omega arith in
    let low : g ≤ 127 = omega arith in
    let product : g * 2 ^ (7 * j) ≤ 127 * 2 ^ (7 * j) = mul-le-mul_right (2 ^ (7 * j)) low in
    rw at (omega (arith, next_power j))

-- A group of seven bits above those read before, of the first four.
add_group :
    (j ret c : ℕ)
    → j ≤ 3
    → ret < 2 ^ (7 * j)
    → (u32 (bit_or ret (bit_and c 0x7f <<< (7 * j))) ≡ ret + c % 128 * 2 ^ (7 * j))
      × (ret + c % 128 * 2 ^ (7 * j) < 2 ^ (7 * j + 7))
add_group j ret c h fits =
    let low : c % 128 ≤ 127 = omega arith in
    let product : c % 128 * 2 ^ (7 * j) ≤ 127 * 2 ^ (7 * j) = mul-le-mul_right (2 ^ (7 * j)) low in
    let room : ret + c % 128 * 2 ^ (7 * j) < 128 * 2 ^ (7 * j) = omega arith in
    (
      rw (low_group, bit_or_join (7 * j) ret (c % 128) fits) (omega (arith, power_le j h)),
      omega (arith, next_power j),
    )

-- What the loop takes when it ends, from the group number `j` on: the bytes of `front`.
pub record Taken (buf : List ℕ) (j ret : ℕ) : Type 0 where
  pub front : List ℕ
  pub rest : List ℕ
  pub value : ℕ
  pub ends : uleb_loop buf ret (7 * j) ≡ some (value, 7 * (j + length front), rest)
  pub parts : buf ≡ front ++ rest
  pub nonempty : 1 ≤ length front
  pub small : (value < 2 ^ (7 * (j + length front))) ⊎ (5 ≤ j + length front)

-- Up to `j` groups fit below that power, as long as they are at most four.
abbrev Low : ℕ → ℕ → Type 0
Low j ret = (ret < 2 ^ (7 * j)) ⊎ (5 ≤ j)

Low-next : (j ret c : ℕ) → Low j ret → Low (j + 1) (u32 (bit_or ret (bit_and c 0x7f <<< (7 * j))))
Low-next j ret c low = elim (Bool-cases (leb 4 j)) [
  | inl big ↦ inr (omega (arith, leb→le 4 j big))
  | inr less ↦
      let few : j ≤ 3 = ground arith in
      elim low [
        | inl h ↦
            let (e, lt) = add_group j ret c few h in
            let p : 7 * j + 7 ≡ 7 * (j + 1) = omega arith in
            inl (rw e (subst (λ (n : ℕ). ret + c % 128 * 2 ^ (7 * j) < 2 ^ n) p lt))
        | inr h ↦ inr (omega arith)
      ]
]

-- The byte at hand ends the number, or the loop goes on behind it.
Taken-last : (c : ℕ) (r : List ℕ) (j ret : ℕ) → c < 128 → Low j ret → Taken (c ∷ r) j ret
unfolding uleb_loop
Taken-last c r j ret h low = record {
  front = c ∷ [];
  rest = r;
  value = u32 (bit_or ret (bit_and c 0x7f <<< (7 * j)));
  ends =
      let at : 7 * j + 7 ≡ 7 * (j + 1) = omega arith in
      rw (last_byte c h)
        (ap (λ (n : ℕ). some (u32 (bit_or ret (bit_and c 0x7f <<< (7 * j))), n, r)) at);
  parts = refl;
  nonempty = omega arith;
  small = Low-next j ret c low;
}

Taken-inner :
    (c : ℕ) (r : List ℕ) (j ret : ℕ)
    → IsByte c
    → 128 ≤ c
    → Taken r (j + 1) (u32 (bit_or ret (bit_and c 0x7f <<< (7 * j))))
    → Taken (c ∷ r) j ret
unfolding uleb_loop
Taken-inner c r j ret b h s =
    let e : j + 1 + length s.front ≡ j + suc (length s.front) = omega arith in
    let at : 7 * j + 7 ≡ 7 * (j + 1) = omega arith in
    record {
      front = c ∷ s.front;
      rest = s.rest;
      value = s.value;
      ends = rw (inner_byte c b h, at) (rw (sym e) s.ends);
      parts = ap (λ l. c ∷ l) s.parts;
      nonempty = omega arith;
      small = rw (sym e) s.small;
    }

uleb_loop-Taken :
    (buf : List ℕ) (j ret : ℕ)
    → All IsByte buf
    → Any (λ c. c < 128) buf
    → Low j ret
    → Taken buf j ret
uleb_loop-Taken [] j ret b h low = absurd h
uleb_loop-Taken (c ∷ r) j ret (b, bs) h low = elim (Bool-cases (ltb c 128)) [
  | inl p ↦ Taken-last c r j ret (ltb→lt c 128 p) low
  | inr p ↦
      let big : 128 ≤ c = ground arith in
      Taken-inner c r j ret b big
        (uleb_loop-Taken r (j + 1) _ bs (later c r big h) (Low-next j ret c low))
]
  where
    later : (c : ℕ) (r : List ℕ) → 128 ≤ c → Any (λ c. c < 128) (c ∷ r) → Any (λ c. c < 128) r
    later c r big (inl p) = absurd (omega arith)
    later c r big (inr q) = q

four_groups : (n v : ℕ) → n ≤ 4 → (v < 2 ^ (7 * (0 + n))) ⊎ (5 ≤ 0 + n) → v < 2 ^ 28
four_groups n v h (inr p) = absurd (omega arith)
four_groups zero v h (inl p) = omega arith
four_groups (suc n) v h (inl p) =
    let e : 7 * (0 + suc n) ≡ 7 * n + 7 = omega arith in
    let q : v < 2 ^ (7 * n + 7) = subst (λ (k : ℕ). v < 2 ^ k) e p in
    omega (arith, next_power n, power_le n (omega arith))

-- On bytes among which one has no top bit `read_uleb128` ends: it takes one byte or more and leaves
-- the others, and what it returns is below 2 ^ 28 after one to four bytes and UINT_MAX after five
-- or more.
pub read_uleb128-bounds :
    (buf : List ℕ)
    → All IsByte buf
    → Any (λ c. c < 128) buf
    → (v : ℕ) × (front : List ℕ) × (rest : List ℕ) × (read_uleb128 buf ≡ some (v, rest))
      × (buf ≡ front ++ rest)
      × (1 ≤ length front)
      × ((length front ≤ 4) × (v < 2 ^ 28) ⊎ (5 ≤ length front) × (v ≡ uint_max))
unfolding read_uleb128
read_uleb128-bounds buf b h =
    let s = uleb_loop-Taken buf 0 0 b h (inl (omega arith)) in
    let starts : uleb_loop buf 0 0 ≡ some (s.value, 7 * (0 + length s.front), s.rest) = s.ends in
    elim (Bool-cases (leb 5 (length s.front))) [
      | inl p ↦
          let five = leb→le 5 (length s.front) p in
          let past : leb 35 (7 * (0 + length s.front)) ≡ true = ground arith in
          (
            uint_max,
            s.front,
            s.rest,
            ground (arith, starts, past),
            s.parts,
            s.nonempty,
            inr (five, refl),
          )
      | inr p ↦
          let four : length s.front ≤ 4 = ground arith in
          let within : leb 35 (7 * (0 + length s.front)) ≡ false = ground arith in
          (
            s.value,
            s.front,
            s.rest,
            ground (arith, starts, within),
            s.parts,
            s.nonempty,
            inl (four, four_groups (length s.front) s.value four s.small),
          )
    ]

-- The encoding of the DWARF standard, for a number below 128 ^ (k + 1).
unfoldable pub leb128 : ℕ → ℕ → List ℕ
leb128 zero v = v % 128 ∷ []
leb128 (suc k) v =
    let more = leb128 k (v / 128) in if ltb v 128 then v ∷ [] else (v % 128 + 128) ∷ more

-- The groups of `w` from the number `j` on, over those read before.
uleb_loop-last :
    (w j ret : ℕ) (r : List ℕ)
    → w < 128
    → j ≤ 3
    → ret < 2 ^ (7 * j)
    → uleb_loop (w ∷ r) ret (7 * j) ≡ some (ret + w * 2 ^ (7 * j), 7 * j + 7, r)
unfolding uleb_loop
uleb_loop-last w j ret r h few low =
    let g : w % 128 ≡ w = omega arith in
    let e = (add_group j ret w few low).0 in
    rw (last_byte w h) (ap (λ (n : ℕ). some (n, 7 * j + 7, r)) (e ∙ rw g refl))

uleb_loop-inner :
    (g j ret : ℕ) (r : List ℕ)
    → g < 128
    → j ≤ 3
    → ret < 2 ^ (7 * j)
    → uleb_loop ((g + 128) ∷ r) ret (7 * j) ≡ uleb_loop r (ret + g * 2 ^ (7 * j)) (7 * (j + 1))
unfolding uleb_loop
uleb_loop-inner g j ret r h few low =
    let same : (g + 128) % 128 ≡ g = omega arith in
    let at : 7 * j + 7 ≡ 7 * (j + 1) = omega arith in
    let e = (add_group j ret (g + 128) few low).0 in
    let e' : u32 (bit_or ret (bit_and (g + 128) 0x7f <<< (7 * j))) ≡ ret + g * 2 ^ (7 * j) =
      e ∙ rw same refl in
    rw (inner_byte (g + 128) (omega arith) (omega arith), e', at) refl

-- What is read of an encoding: its value, a shift below 35, and what follows it.
pub record ReadsBack (k w j ret : ℕ) (r : List ℕ) : Type 0 where
  pub shift : ℕ
  pub within : shift < 35
  pub reads : uleb_loop (leb128 k w ++ r) ret (7 * j) ≡ some (ret + w * 2 ^ (7 * j), shift, r)

split_group : (w j : ℕ) → w * 2 ^ (7 * j) ≡ w % 128 * 2 ^ (7 * j) + w / 128 * 2 ^ (7 * (j + 1))
split_group w j =
    let at : 7 * (j + 1) ≡ 7 * j + 7 = omega arith in
    rw at (
      omega (
        arith,
        ap (λ (t : ℕ). t * 2 ^ (7 * j)) (div-add-mod w 128),
        ap (λ (t : ℕ). w / 128 * t) (next_power j),
      ))

reads_last :
    (k w j ret : ℕ) (r : List ℕ)
    → leb128 k w ≡ w ∷ []
    → w < 128
    → j ≤ 3
    → ret < 2 ^ (7 * j)
    → ReadsBack k w j ret r
reads_last k w j ret r e h few low = record {
  shift = 7 * j + 7;
  within = omega arith;
  reads = rw e (uleb_loop-last w j ret r h few low);
}

uleb_loop-leb128 :
    (k w j ret : ℕ) (r : List ℕ)
    → w < 128 ^ suc k
    → j + k ≤ 3
    → ret < 2 ^ (7 * j)
    → ReadsBack k w j ret r
unfolding leb128
uleb_loop-leb128 zero w j ret r h few low =
    reads_last zero w j ret r (ap (λ n. n ∷ []) (omega arith)) (omega arith) (omega arith) low
uleb_loop-leb128 (suc k) w j ret r h few low = elim (Bool-cases (ltb w 128)) [
  | inl p ↦ reads_last (suc k) w j ret r (rw p refl) (ltb→lt w 128 p) (omega arith) low
  | inr p ↦
      let few' : j ≤ 3 = omega arith in
      let small : w % 128 < 128 = omega arith in
      let s =
        uleb_loop-leb128 k (w / 128) (j + 1) (ret + w % 128 * 2 ^ (7 * j)) r (omega arith)
          (omega arith) (group_fits j ret (w % 128) small low) in
      record {
        shift = s.shift;
        within = s.within;
        reads = rw p (
            uleb_loop-inner (w % 128) j ret (leb128 k (w / 128) ++ r) small few' low
            ∙ s.reads
            ∙ ap (λ (n : ℕ). some (n, s.shift, r)) (omega (arith, split_group w j)));
      }
]

-- A number below 2 ^ 28 is read back from its encoding, and what follows the encoding is left.
pub read_uleb128-leb128 :
    (v : ℕ) (r : List ℕ) → v < 2 ^ 28 → read_uleb128 (leb128 3 v ++ r) ≡ some (v, r)
unfolding read_uleb128
read_uleb128-leb128 v r h =
    let s = uleb_loop-leb128 3 v 0 0 r (omega arith) (omega arith) (omega arith) in
    let e : leb 35 s.shift ≡ false = ground (arith, s.within) in
    let reads : uleb_loop (leb128 3 v ++ r) 0 0 ≡ some (0 + v * 1, s.shift, r) = s.reads in
    let same : 0 + v * 1 ≡ v = omega arith in ground (arith, reads, e, same)
