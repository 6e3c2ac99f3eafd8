-- ===== src/Data/Iterator.antt =====
-- src/data.c, `struct data_iterator`: blocks of bytes, one after the other, from an address on.
pub mod Start
use prelink_cross.Base.{
  ℕ, zero, suc, ◌+◌, ◌-◌, ◌^◌, ◌<◌, ◌≤◌, ◌≡◌, refl, ap, ◌∙◌, Bool, true, false, ◌&&◌, ◌||◌, not,
  Option, none, some, List, [], ◌∷◌, leb, ltb, ◌==◌, if◌then◌else◌, get_elem?, get_or, length,
  add64, sub64, arith, Bool-cases, Option-cases, inl, inr,
}
use prelink_cross.Dso.{Dso, Shdr, Block, addr_to_sec}
use prelink_cross.Data.{Place, find_block, place_in, get_data}

-- `data` is the number of the block, `none` for NULL; `sec` is `none` for -1.
pub record Iterator : Type 0 where
  pub data_block : Option ℕ
  pub addr : ℕ
  pub sec : Option ℕ
  pub sec_offset : ℕ

-- The blocks of the section of an iterator.
abbrev pub blocks_of : Dso → Option ℕ → List Block
blocks_of d none = []
blocks_of d (some n) = get_or d.scn n []

abbrev pub block_end : Block → ℕ
block_end b = add64 b.d_off b.d_size

-- The fields that the function does not set are not read before they are set.
abbrev pub init_data_iterator : ℕ → Iterator
init_data_iterator addr = record { data_block = none; addr = addr; sec = none; sec_offset = 0 }

-- At the end of a block, the next one.
unfoldable pub next_block : Dso → Iterator → Option ℕ
next_block d it = elim it.data_block [
  | none ↦ none
  | some k ↦ elim (get_elem? (blocks_of d it.sec) k) [
    | none ↦ none
    | some b ↦
        if block_end b == it.sec_offset
        then if ltb (suc k) (length (blocks_of d it.sec)) then some (suc k) else none
        else some k
  ]
]

-- The first block, from number `k` on, that ends behind the offset.
unfoldable pub skip_blocks : List Block → ℕ → ℕ → Option ℕ
skip_blocks [] off k = none
skip_blocks (b ∷ l) off k =
    let rest = skip_blocks l off (suc k) in if leb (block_end b) off then rest else some k

-- Where the iterator has no block: the section of the address, and the block in it.
unfoldable pub seek : Dso → Iterator → Iterator × Dso
seek d it =
    let (sec, d') = addr_to_sec d it.addr in
    elim sec [
      | none ↦ (record it { data_block = none; sec = none }, d')
      | some n ↦ elim (get_elem? d'.shdr n) [
        | none ↦ (record it { data_block = none; sec = none }, d')
        | some s ↦
            let off = sub64 it.addr s.sh_addr in
            (
              record {
                data_block = skip_blocks (get_or d'.scn n []) off 0;
                addr = it.addr;
                sec = some n;
                sec_offset = off;
              },
              d',
            )
      ]
    ]

-- The pointer, if the block has all the bytes.
unfoldable pub pointer_in : Dso → Iterator → ℕ → ℕ → ℕ → Option Place
pointer_in d it n k size = elim (get_elem? (blocks_of d (some n)) k) [
  | none ↦ none
  | some b ↦
      if ltb it.sec_offset b.d_off || ltb (block_end b) (add64 it.sec_offset size)
      then none
      else some (record { sec = n; block = k; off = it.sec_offset - b.d_off; bytes = b.bytes })
]

unfoldable pub pointer_at : Dso → Iterator → ℕ → Option Place
unfolding pointer_in
pointer_at d it size = elim it.sec [
  | none ↦ none
  | some n ↦ elim it.data_block [ none ↦ none | some k ↦ pointer_in d it n k size ]
]

abbrev pub moved_on : Iterator → ℕ → Iterator
moved_on it size = record it { addr = add64 it.addr size; sec_offset = add64 it.sec_offset size }

abbrev pub take_bytes : Iterator × Dso → ℕ → Option Place × Iterator × Dso
take_bytes (it, d) size = elim (pointer_at d it size) [
  | none ↦ (none, it, d)
  | some p ↦ (some p, moved_on it size, d)
]

unfoldable pub get_data_from_iterator : Iterator → ℕ → Dso → Option Place × Iterator × Dso
unfolding seek pointer_at next_block
get_data_from_iterator it size d =
    let k = next_block d it in
    elim k [
      | none ↦ take_bytes (seek d (record it { data_block = none })) size
      | some j ↦ take_bytes (record it { data_block = some j }, d) size
    ]
