-- ===== src/Layout/Search.antt =====
-- The search for a slot between the entries that were placed before.
use prelink_cross.Base.{
  ℕ, ◌+◌, ◌^◌, ◌≤◌, ◌<◌, ◌≡◌, refl, ◌⊎◌, inl, inr, Bool, true, Option, none, some, List, [], ◌∷◌,
  ltb, leb, add64, arith, All, All-map, Bool-cases,
}
use prelink_cross.Layout.{Entry, Slot, find_slot, unwind}
use prelink_cross.Layout.Pairs.{Pairs}

-- The addresses from `addr` on, `size` of them, are none of the entry's.
abbrev pub IsFree : ℕ → ℕ → Entry → Type 0
IsFree addr size e = (addr + size ≤ e.base) ⊎ (e.layend ≤ addr)

abbrev pub Below : Entry → Entry → Type 0
Below a b = a.base ≤ b.base

-- What the search is told of the list: it is sorted by address, and no address wraps around.
abbrev pub IsRoomy : ℕ → ℕ → Entry → Type 0
IsRoomy size fin e = (e.layend + size < 2 ^ 64) × (e.base ≤ fin)

module _ (seen : Entry → Bool) (size fin : ℕ) where
  pub record Found (base : ℕ) (before after : List Entry) (s : Slot) : Type 0 where
    pub above : base ≤ s.addr
    pub within : s.addr + size ≤ fin
    pub free : All (λ e. seen e ≡ true → IsFree s.addr size e) after
    pub kept : unwind s.at.before s.at.after ≡ unwind before after
    pub behind : All (λ e. s.addr + size ≤ e.base) s.at.after

  Found-here :
      (base : ℕ) (before : List Entry) (e : Entry) (after : List Entry)
      → base + size ≤ e.base
      → e.base ≤ fin
      → Pairs Below (e ∷ after)
      → Found base before
          (e ∷ after)
          (record { addr = base; at = record { before = before; after = e ∷ after } })
  Found-here base before e after le top sorted =
      let later : All (λ b. base + size ≤ b.base) after =
        All-map (Below e) (λ b. base + size ≤ b.base) (λ b h. omega arith) after sorted.0 in
      record {
        above = omega arith;
        within = omega arith;
        free = (λ _. inl le, All-map (λ b. base + size ≤ b.base) _ (λ b h _. inl h) after later);
        kept = refl;
        behind = (le, later);
      }

  Found-on :
      (base base' : ℕ) (before : List Entry) (e : Entry) (after : List Entry) (s : Slot)
      → base ≤ base'
      → (seen e ≡ true → e.layend ≤ base')
      → Found base' (e ∷ before) after s
      → Found base before (e ∷ after) s
  unfolding unwind
  Found-on base base' before e after s le passed f = record {
    above = omega (arith, f.above);
    within = f.within;
    free = (λ is. inr (omega (arith, passed is, f.above)), f.free);
    kept = f.kept;
    behind = f.behind;
  }

  abbrev pub IfFound : ℕ → List Entry → List Entry → Option Slot → Type 0
  IfFound base before after none = Unit {0}
  IfFound base before after (some s) = Found base before after s

  found_later :
      (base base' : ℕ) (before : List Entry) (e : Entry) (after : List Entry) (o : Option Slot)
      → base ≤ base'
      → (seen e ≡ true → e.layend ≤ base')
      → IfFound base' (e ∷ before) after o
      → IfFound base before (e ∷ after) o
  found_later base base' before e after none le passed f = tt
  found_later base base' before e after (some s) le passed f =
      Found-on base base' before e after s le passed f

  pub find_slot-IfFound :
      (base : ℕ) (before after : List Entry)
      → Pairs Below after
      → All (IsRoomy size fin) after
      → base + size < 2 ^ 64
      → IfFound base before after (find_slot seen size fin base before after)
  unfolding find_slot
  find_slot-IfFound base before [] sorted roomy lt = elim (Bool-cases (ltb fin (add64 base size))) [
    | inl c ↦ rw c tt
    | inr c ↦
        rw c (record {
          above = omega arith;
          within = ground arith;
          free = tt;
          kept = refl;
          behind = tt;
        })
  ]
  find_slot-IfFound base before (x ∷ after) sorted roomy lt =
      let on = find_slot-IfFound base (x ∷ before) after sorted.1 roomy.1 lt in
      let past = find_slot-IfFound x.layend (x ∷ before) after sorted.1 roomy.1 roomy.0.0 in
      elim (Bool-cases (seen x)) [
        | inr c ↦
            rw c
              (found_later base base before x after _ (omega arith) (λ h. absurd (ground arith)) on)
        | inl c ↦ elim (Bool-cases (leb (add64 base size) x.base)) [
          | inl d ↦ rw (c, d) (Found-here base before x after (ground arith) roomy.0.1 sorted)
          | inr d ↦ elim (Bool-cases (ltb base x.layend)) [
            | inl f ↦
                rw (c, d, f)
                  (found_later base x.layend before x after _ (ground arith) (λ _. omega arith)
                    past)
            | inr f ↦
                rw (c, d, f)
                  (found_later base base before x after _ (omega arith) (λ _. ground arith) on)
          ]
        ]
      ]
