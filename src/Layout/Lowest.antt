-- ===== src/Layout/Lowest.antt =====
-- The slot that the search takes is free, and the lowest one that is.
use prelink_cross.Base.{
  ℕ, ◌+◌, ◌^◌, ◌≤◌, ◌<◌, ◌≡◌, inl, inr, Bool, true, Option, none, some, List, [], ◌∷◌, ltb, leb,
  add64, arith, All, All-map, Bool-cases,
}
use prelink_cross.Layout.{Entry, Slot, find_slot}
use prelink_cross.Layout.Pairs.{Pairs}
use prelink_cross.Layout.Search.{IsFree, Below}

module _ (seen : Entry → Bool) (size fin : ℕ) where
  -- An address from `base` on that no entry that is looked at is in the way of.
  abbrev pub IsOpen : ℕ → List Entry → ℕ → Type 0
  IsOpen base l addr = (base ≤ addr) × All (λ e. seen e ≡ true → IsFree addr size e) l

  abbrev pub IsFirst : ℕ → List Entry → Option Slot → Type 0
  IsFirst base l none = (addr : ℕ) → IsOpen base l addr → fin < addr + size
  IsFirst base l (some s) = (addr : ℕ) → IsOpen base l addr → s.addr ≤ addr

  IsFirst-later :
      (base base' : ℕ) (e : Entry) (l : List Entry) (o : Option Slot)
      → ((addr : ℕ) → base ≤ addr → (seen e ≡ true → IsFree addr size e) → base' ≤ addr)
      → IsFirst base' l o
      → IsFirst base (e ∷ l) o
  IsFirst-later base base' e l none on h = λ addr o. h addr (on addr o.0 o.1.0, o.1.1)
  IsFirst-later base base' e l (some s) on h = λ addr o. h addr (on addr o.0 o.1.0, o.1.1)

  find_slot-IsFirst :
      (base : ℕ) (before after : List Entry)
      → All (λ e. e.layend + size < 2 ^ 64) after
      → base + size < 2 ^ 64
      → IsFirst base after (find_slot seen size fin base before after)
  unfolding find_slot
  find_slot-IsFirst base before [] small lt = elim (Bool-cases (ltb fin (add64 base size))) [
    | inl c ↦ rw c (λ addr h. ground arith)
    | inr c ↦ rw c (λ addr h. h.0)
  ]
  find_slot-IsFirst base before (x ∷ after) small lt =
      let on = find_slot-IsFirst base (x ∷ before) after small.1 lt in
      let past = find_slot-IsFirst x.layend (x ∷ before) after small.1 small.0 in
      let stay = λ (addr : ℕ) (le : base ≤ addr) (free : seen x ≡ true → IsFree addr size x). le in
      elim (Bool-cases (seen x)) [
        | inr c ↦ rw c (IsFirst-later base base x after _ stay on)
        | inl c ↦ elim (Bool-cases (leb (add64 base size) x.base)) [
          | inl d ↦ rw (c, d) (λ addr h. h.0)
          | inr d ↦ elim (Bool-cases (ltb base x.layend)) [
            | inl f ↦
                rw (c, d, f)
                  (IsFirst-later base x.layend x after _
                    (λ addr le free. elim (free c) [ inl q ↦ ground arith | inr q ↦ q ]) past)
            | inr f ↦ rw (c, d, f) (IsFirst-later base base x after _ stay on)
          ]
        ]
      ]

  -- The slot is free itself, as the entries behind it in a sorted list start no lower.
  abbrev IfOpen : ℕ → List Entry → Option Slot → Type 0
  IfOpen base l none = Unit {0}
  IfOpen base l (some s) = IsOpen base l s.addr

  IfOpen-later :
      (base base' : ℕ) (e : Entry) (l : List Entry) (o : Option Slot)
      → base ≤ base'
      → (seen e ≡ true → e.layend ≤ base')
      → IfOpen base' l o
      → IfOpen base (e ∷ l) o
  IfOpen-later base base' e l none le passed h = tt
  IfOpen-later base base' e l (some s) le passed h =
      (omega (arith, h.0), ((λ c. inr (omega (arith, passed c, h.0))), h.1))

  IsOpen-here :
      (base : ℕ) (e : Entry) (l : List Entry)
      → base + size ≤ e.base
      → Pairs Below (e ∷ l)
      → IsOpen base (e ∷ l) base
  IsOpen-here base e l le sorted = (
    omega arith,
    (
      (λ c. inl le),
      All-map (Below e) (λ b. seen b ≡ true → IsFree base size b) (λ b h c. inl (omega arith)) l
          sorted.0,
    ),
  )

  find_slot-IfOpen :
      (base : ℕ) (before after : List Entry)
      → Pairs Below after
      → All (λ e. e.layend + size < 2 ^ 64) after
      → base + size < 2 ^ 64
      → IfOpen base after (find_slot seen size fin base before after)
  unfolding find_slot
  find_slot-IfOpen base before [] sorted small lt = elim (Bool-cases (ltb fin (add64 base size))) [
    | inl c ↦ rw c tt
    | inr c ↦ rw c (omega arith, tt)
  ]
  find_slot-IfOpen base before (x ∷ after) sorted small lt =
      let on = find_slot-IfOpen base (x ∷ before) after sorted.1 small.1 lt in
      let past = find_slot-IfOpen x.layend (x ∷ before) after sorted.1 small.1 small.0 in
      elim (Bool-cases (seen x)) [
        | inr c ↦
            rw c (IfOpen-later base base x after _ (omega arith) (λ h. absurd (ground arith)) on)
        | inl c ↦ elim (Bool-cases (leb (add64 base size) x.base)) [
          | inl d ↦ rw (c, d) (IsOpen-here base x after (ground arith) sorted)
          | inr d ↦ elim (Bool-cases (ltb base x.layend)) [
            | inl f ↦
                rw (c, d, f)
                  (IfOpen-later base x.layend x after _ (ground arith) (λ _. omega arith) past)
            | inr f ↦
                rw (c, d, f) (IfOpen-later base base x after _ (omega arith) (λ _. ground arith) on)
          ]
        ]
      ]

  -- The lowest open address, or none at all, where each open address is too high.
  abbrev pub IsLowest : ℕ → List Entry → Option Slot → Type 0
  IsLowest base l none = (addr : ℕ) → IsOpen base l addr → fin < addr + size
  IsLowest base l (some s) =
      IsOpen base l s.addr × ((addr : ℕ) → IsOpen base l addr → s.addr ≤ addr)

  both-IsLowest :
      (base : ℕ) (l : List Entry) (o : Option Slot)
      → IfOpen base l o
      → IsFirst base l o
      → IsLowest base l o
  both-IsLowest base l none h first = first
  both-IsLowest base l (some s) h first = (h, first)

  -- Let the list be sorted by address, and no address wrap around. Where the search yields an
  -- address, it is not below `base`, the `size` addresses from it on are free of every entry that the
  -- search looks at, and no lower address is such. Where it yields none, the addresses from any such
  -- address on end above `mmap_fin`.
  pub find_slot-IsLowest :
      (base : ℕ) (before after : List Entry)
      → Pairs Below after
      → All (λ e. e.layend + size < 2 ^ 64) after
      → base + size < 2 ^ 64
      → IsLowest base after (find_slot seen size fin base before after)
  find_slot-IsLowest base before after sorted small lt =
      both-IsLowest base after _ (find_slot-IfOpen base before after sorted small lt)
        (find_slot-IsFirst base before after small lt)
