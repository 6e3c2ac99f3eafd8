-- ===== src/Ppc/Predicted.antt =====
-- The bit of a conditional branch that predicts whether it is taken.
use prelink_cross.Base.{
  ℕ, zero, suc, ◌+◌, ◌*◌, ◌/◌, ◌%◌, ◌^◌, ◌<◌, ◌≡◌, ◌≢◌, ap, ap₂, sym, ◌∙◌, refl, Bool, true, false,
  if◌then◌else◌, some, List, ◌∷◌, bit_and, bit_or, bit_xor, ◌>>>◌, ◌<<<◌, u8, arith,
}
use prelink_cross.Base.Bits.{bit_or_digit, bit_and_digit, bit_xor_digit, differ-lt}
use prelink_cross.Bytes.{msb, w32, buf_read_une, buf_write_ne}
use prelink_cross.X86_64.Prelink.{Applied, done}
use prelink_cross.Ppc.Words.{field_14_predicted}
use prelink_cross.Ppc.Prelink.{write_field}
use native.Mathlib.Nat.{pow-suc, div-div-eq-div-mul}
use Prim.Native.Nat.{min, max, differ}

abbrev digit : ℕ → ℕ → ℕ
digit k x = x / 2 ^ k % 2

digit-suc : (k x : ℕ) → digit (suc k) x ≡ digit k (x / 2)
digit-suc k x =
    let e : 2 ^ suc k ≡ 2 * 2 ^ k = omega (arith, pow-suc 2 k) in
    ap (λ (t : ℕ). x / t % 2) e ∙ ap (λ (t : ℕ). t % 2) (sym (div-div-eq-div-mul x 2 (2 ^ k)))

-- An operation that works digit by digit does so at each digit.
module _ (op f : ℕ → ℕ → ℕ) (step : (a b : ℕ) → op a b ≡ op (a / 2) (b / 2) * 2 + f (a % 2) (b % 2))
    (small : (x y : ℕ) → x < 2 → y < 2 → f x y < 2) where
  digit-op : (k a b : ℕ) → digit k (op a b) ≡ f (digit k a) (digit k b)
  digit-op zero a b =
      let s = step a b in
      let lt = small (a % 2) (b % 2) (omega arith) (omega arith) in
      let ea : a / 2 ^ 0 % 2 ≡ a % 2 = omega arith in
      let eb : b / 2 ^ 0 % 2 ≡ b % 2 = omega arith in rw (ea, eb) (omega arith)
  digit-op (suc k) a b =
      let s = step a b in
      let lt = small (a % 2) (b % 2) (omega arith) (omega arith) in
      let half : op a b / 2 ≡ op (a / 2) (b / 2) = omega arith in
      digit-suc k (op a b)
      ∙ ap (digit k) half
      ∙ digit-op k (a / 2) (b / 2)
      ∙ ap₂ f (sym (digit-suc k a)) (sym (digit-suc k b))

digit-or : (k a b : ℕ) → digit k (bit_or a b) ≡ max (digit k a) (digit k b)
digit-or = digit-op bit_or max bit_or_digit (λ x y h g. omega arith)

digit-and : (k a b : ℕ) → digit k (bit_and a b) ≡ min (digit k a) (digit k b)
digit-and = digit-op bit_and min bit_and_digit (λ x y h g. omega arith)

digit-xor : (k a b : ℕ) → digit k (bit_xor a b) ≡ differ (digit k a) (digit k b)
digit-xor = digit-op bit_xor differ bit_xor_digit (λ x y. differ-lt x y 2)

-- The bit in the instruction is that of the value if the branch is predicted as not taken, and the
-- other one if it is predicted as taken.
guess : Bool → ℕ
guess taken = if taken then 1 <<< 21 else 0

digit-guess : (taken : Bool) → digit 21 (guess taken) ≡ (if taken then 1 else 0)
unfolding guess
digit-guess true = refl
digit-guess false = refl

digit-field :
    (taken : Bool) (value word : ℕ)
    → digit 21 (field_14_predicted taken value word)
      ≡ differ (if taken then 1 else 0) (digit 21 (value >>> 10))
unfolding field_14_predicted guess
digit-field taken value word =
    let v = value >>> 10 in
    let low = bit_and value 0xfffc in
    let kept = bit_and word 0xffdf0003 in
    let bit = bit_and (bit_xor (guess taken) v) 0x00200000 in
    let outer = digit-or 21 (bit_or low kept) bit in
    let inner = digit-or 21 low kept in
    let low_zero = digit-and 21 value 0xfffc in
    let kept_zero = digit-and 21 word 0xffdf0003 in
    let one = digit-and 21 (bit_xor (guess taken) v) 0x00200000 in
    let x : digit 21 (bit_xor (guess taken) v) ≡ differ (if taken then 1 else 0) (digit 21 v) =
      digit-xor 21 (guess taken) v ∙ ap (λ (t : ℕ). differ t (digit 21 v)) (digit-guess taken) in
    omega arith

differ-flips : (y : ℕ) → y < 2 → differ 1 y ≢ differ 0 y
differ-flips zero h e = absurd (omega arith)
differ-flips (suc zero) h e = absurd (omega arith)
differ-flips (suc (suc y)) h e = absurd (omega arith)

-- The byte that has the bit.
second_byte : Applied → ℕ
second_byte (done (b0 ∷ b1 ∷ l)) = b1
second_byte _ = 0

same_byte :
    (value word : ℕ)
    → u8 (field_14_predicted false value word >>> 16)
      ≡ u8 (field_14_predicted true value word >>> 16)
    → ⊥
same_byte value word e =
    let f = digit-field false value word in
    let t = digit-field true value word in
    let same : digit 21 (field_14_predicted false value word)
        ≡ digit 21 (field_14_predicted true value word) =
      omega arith in
    differ-flips (digit 21 (value >>> 10)) (omega arith) (sym t ∙ sym same ∙ f)

four_bytes :
    (b0 b1 b2 b3 : ℕ) (r : List ℕ) (word value : ℕ)
    → buf_read_une msb w32 (b0 ∷ b1 ∷ b2 ∷ b3 ∷ r) ≡ some word
    → write_field (b0 ∷ b1 ∷ b2 ∷ b3 ∷ r) (field_14_predicted false value)
      ≢ write_field (b0 ∷ b1 ∷ b2 ∷ b3 ∷ r) (field_14_predicted true value)
unfolding buf_write_ne second_byte
four_bytes b0 b1 b2 b3 r word value h e =
    let e' = rw (write_field, h) at e in same_byte value word (ap second_byte e')

-- Two fields that differ in the bit are not written alike.
pub write_field-differs :
    (buf : List ℕ) (word value : ℕ)
    → buf_read_une msb w32 buf ≡ some word
    → write_field buf (field_14_predicted false value)
      ≢ write_field buf (field_14_predicted true value)
unfolding buf_read_une
write_field-differs (b0 ∷ b1 ∷ b2 ∷ b3 ∷ r) word value h = four_bytes b0 b1 b2 b3 r word value h
write_field-differs _ word value h = absurd (cc h)
