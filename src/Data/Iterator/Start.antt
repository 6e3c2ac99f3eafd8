-- ===== src/Data/Iterator/Start.antt =====
-- The first bytes that an iterator provides.
use prelink_cross.Base.{
  ℕ, suc, ◌+◌, ◌-◌, ◌^◌, ◌<◌, ◌≤◌, ◌≡◌, refl, sym, ap, ◌∙◌, ◌||◌, Option, none, some, List, [], ◌∷◌,
  leb, ltb, if◌then◌else◌, get_elem?, get_or, add64, sub64, arith, Bool-cases, Option-cases, inl,
  inr,
}
use prelink_cross.Dso.{Dso, Shdr, Block, addr_to_sec}
use prelink_cross.Data.{Place, find_block, place_in, get_data}
use prelink_cross.Data.Iterator.{
  Iterator, block_end, init_data_iterator, skip_blocks, seek, pointer_in, pointer_at,
  get_data_from_iterator, take_bytes, moved_on,
}

-- The pointer that `skip_blocks` leads to.
abbrev pub pointer_of : ℕ → ℕ → ℕ → ℕ → Option Block → Option Place
pointer_of n off size j none = none
pointer_of n off size j (some b) =
    if ltb off b.d_off || ltb (block_end b) (add64 off size)
    then none
    else some (record { sec = n; block = j; off = off - b.d_off; bytes = b.bytes })

abbrev pub pointer_after : List Block → ℕ → ℕ → ℕ → ℕ → Option ℕ → Option Place
pointer_after l n off size k none = none
pointer_after l n off size k (some j) = pointer_of n off size j (get_elem? l (j - k))

skip_blocks-le : (l : List Block) (off k j : ℕ) → skip_blocks l off k ≡ some j → k ≤ j
unfolding skip_blocks
skip_blocks-le [] off k j e = absurd (cc e)
skip_blocks-le (b ∷ l) off k j e = ground (arith, skip_blocks-le l off (suc k) j)

pointer_after-cons :
    (b : Block) (l : List Block) (n off size k : ℕ) (o : Option ℕ)
    → ((j : ℕ) → o ≡ some j → suc k ≤ j)
    → pointer_after (b ∷ l) n off size k o ≡ pointer_after l n off size (suc k) o
pointer_after-cons b l n off size k none h = refl
pointer_after-cons b l n off size k (some j) h =
    let e : j - k ≡ suc (j - suc k) = omega (arith, h j refl) in
    ap (λ t. pointer_of n off size j (get_elem? (b ∷ l) t)) e

pointer_after-head :
    (b : Block) (l : List Block) (n off size k : ℕ) (p : Place)
    → 0 < size
    → off + size < 2 ^ 64
    → pointer_after (b ∷ l) n off size k (some k) ≡ some p
    → find_block (b ∷ l) n off k ≡ some p
unfolding find_block
pointer_after-head b l n off size k p pos lt e =
    let z : k - k ≡ 0 = omega arith in
    let here : pointer_of n off size k (some b) ≡ some p =
      ap (λ t. pointer_of n off size k (get_elem? (b ∷ l) t)) (sym z) ∙ e in
    ground (arith, here)

skip_blocks-find_block :
    (l : List Block) (n off size k : ℕ) (p : Place)
    → 0 < size
    → off + size < 2 ^ 64
    → pointer_after l n off size k (skip_blocks l off k) ≡ some p
    → find_block l n off k ≡ some p
unfolding skip_blocks find_block
skip_blocks-find_block [] n off size k p pos lt e = absurd (cc e)
skip_blocks-find_block (b ∷ l) n off size k p pos lt e = elim (Bool-cases (leb (block_end b) off)) [
  | inr c ↦ pointer_after-head b l n off size k p pos lt (rw c at e)
  | inl c ↦
      let rest = skip_blocks-find_block l n off size (suc k) p pos lt (
        sym (
          pointer_after-cons b l n off size k (skip_blocks l off (suc k))
            (λ j. skip_blocks-le l off (suc k) j))
        ∙ (rw c at e)) in
      let num : k + 1 ≡ suc k = omega arith in ground (arith, rest, num)
]

module _ (d d1 : Dso) (addr size n : ℕ) (s : Shdr) (found : addr_to_sec d addr ≡ (some n, d1))
    (there : get_elem? d1.shdr n ≡ some s) where
  abbrev off : ℕ
  off = sub64 addr s.sh_addr

  abbrev blocks : List Block
  blocks = get_or d1.scn n []

  -- The iterator that `seek` leaves.
  abbrev seeked : Iterator
  seeked = record {
    data_block = skip_blocks blocks off 0;
    addr = addr;
    sec = some n;
    sec_offset = off;
  }

  seek-seeked : seek d (init_data_iterator addr) ≡ (seeked, d1)
  unfolding seek
  seek-seeked = ground (arith, found, there)

  pointer_at-after :
      (o : Option ℕ)
      → pointer_at d1 (record seeked { data_block = o }) size ≡ pointer_after blocks n off size 0 o
  unfolding pointer_at pointer_in
  pointer_at-after none = refl
  pointer_at-after (some j) =
      let z : j ≡ j - 0 = omega arith in
      elim (Option-cases (get_elem? blocks j)) [
        | inl e ↦ ground (arith, e, z)
        | inr (b, e) ↦ ground (arith, e, z)
      ]

  get_data-find : get_data d addr ≡ (find_block blocks n off 0, d1)
  unfolding get_data place_in
  get_data-find = ground (arith, found, there)

  taken :
      (p : Place) (it' : Iterator) (d' : Dso)
      → 0 < size
      → off + size < 2 ^ 64
      → take_bytes (seeked, d1) size ≡ (some p, it', d')
      → (get_data d addr ≡ (some p, d')) × (it'.addr ≡ add64 addr size)
  taken p it' d' pos lt e = elim (Option-cases (pointer_at d1 seeked size)) [
    | inl c ↦ absurd (cc (rw (c, take_bytes) at e))
    | inr (q, c) ↦
        let r : (some q, moved_on seeked size, d1) ≡ (some p, it', d') = rw (c, take_bytes) at e in
        let same : q ≡ p = cc r in
        let first : find_block blocks n off 0 ≡ some q =
          skip_blocks-find_block blocks n off size 0 q pos lt
            (sym (pointer_at-after (skip_blocks blocks off 0)) ∙ c) in
        (
          get_data-find ∙ cc (first, r),
          ap (λ (t : Option Place × Iterator × Dso). t.1.addr) (sym r),
        )
  ]

-- An iterator that starts at an address with a section, and that gives a pointer to `size` bytes,
-- not 0 and not past the highest offset, gives the pointer that `get_data` gives for that address,
-- and then stands `size` bytes behind it.
pub get_data_from_iterator-get_data :
    (d d1 : Dso) (addr size n : ℕ) (s : Shdr) (p : Place) (it' : Iterator) (d' : Dso)
    → addr_to_sec d addr ≡ (some n, d1)
    → get_elem? d1.shdr n ≡ some s
    → 0 < size
    → sub64 addr s.sh_addr + size < 2 ^ 64
    → get_data_from_iterator (init_data_iterator addr) size d ≡ (some p, it', d')
    → (get_data d addr ≡ (some p, d')) × (it'.addr ≡ add64 addr size)
unfolding get_data_from_iterator
get_data_from_iterator-get_data d d1 addr size n s p it' d' found there pos lt e =
    taken d d1 addr size n s found there p it' d' pos lt
      (ap (λ r. take_bytes r size) (sym (seek-seeked d d1 addr size n s found there)) ∙ e)
