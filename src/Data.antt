-- ===== src/Data.antt =====
-- src/data.c, the `read_*` and `write_*` functions: words at an address of an object. `M` carries
-- the object; its `none` is an access past the end of a block, which C leaves undefined.
pub mod Lookup
pub mod ReadWrite
pub mod Iterator
mod Tests
use prelink_cross.Base.{
  ℕ, zero, suc, ◌+◌, ◌-◌, Bool, true, false, ◌&&◌, Option, none, some, List, [], ◌∷◌, leb, ltb,
  if◌then◌else◌, get_elem?, get_or, set, drop, add64, sub64,
}
use prelink_cross.Bytes.{ByteOrder, Width, buf_read_une, buf_write_ne}
use prelink_cross.Dso.{Dso, Shdr, Block, addr_to_sec}

abbrev pub M : Type 0 → Type 0
M A = Dso → Option (A × Dso)

infixl 5 ◌>>=◌ ◌>>◌
abbrev pub ◌>>=◌ : {A B : Type 0} → M A → (A → M B) → M B
◌>>=◌ m f d = elim (m d) [ none ↦ none | some (a, d') ↦ f a d' ]

abbrev pub ◌>>◌ : {A B : Type 0} → M A → M B → M B
◌>>◌ m k d = elim (m d) [ none ↦ none | some (a, d') ↦ k d' ]

abbrev pub pure : {A : Type 0} → A → M A
pure a d = some (a, d)

-- Where a byte lies: a section, a block of it, an offset in the block, and whether the block is of
-- type ELF_T_BYTE.
pub record Place : Type 0 where
  pub sec : ℕ
  pub block : ℕ
  pub off : ℕ
  pub bytes : Bool

-- The block of a section, from number `k` on, that has the byte at offset `off`.
unfoldable pub find_block : List Block → ℕ → ℕ → ℕ → Option Place
find_block [] sec off k = none
find_block (b ∷ l) sec off k =
    if leb b.d_off off && ltb off (add64 b.d_off b.d_size)
    then some (record { sec = sec; block = k; off = off - b.d_off; bytes = b.bytes })
    else find_block l sec off (k + 1)

-- The offset of an address in section `sec`; `addr_to_sec` returns sections of the object only.
unfoldable pub place_in : Dso → ℕ → ℕ → Option Place
place_in d sec addr = elim (get_elem? d.shdr sec) [
  | none ↦ none
  | some s ↦ find_block (get_or d.scn sec []) sec (sub64 addr s.sh_addr) 0
]

-- NULL is `none`.
unfoldable pub get_data : Dso → ℕ → Option Place × Dso
get_data d addr =
    let (sec, d') = addr_to_sec d addr in
    elim sec [ none ↦ (none, d') | some n ↦ (place_in d' n addr, d') ]

-- The bytes from a place on.
abbrev pub bytes_at : Dso → Place → List ℕ
bytes_at d p = elim (get_elem? (get_or d.scn p.sec []) p.block) [
  | none ↦ []
  | some b ↦ drop p.off b.d_buf
]

-- A change of the bytes from offset `off` on.
unfoldable pub change_from : List ℕ → ℕ → (List ℕ → Option (List ℕ)) → Option (List ℕ)
change_from buf zero f = f buf
change_from [] (suc off) f = none
change_from (x ∷ buf) (suc off) f = elim (change_from buf off f) [
  | none ↦ none
  | some buf' ↦ some (x ∷ buf')
]

unfoldable pub change_at : Dso → Place → (List ℕ → Option (List ℕ)) → Option Dso
change_at d p f = elim (get_elem? (get_or d.scn p.sec []) p.block) [
  | none ↦ none
  | some b ↦ elim (change_from b.d_buf p.off f) [
    | none ↦ none
    | some buf ↦ some (record d {
      scn = set d.scn p.sec (set (get_or d.scn p.sec []) p.block (record b { d_buf = buf }));
      dirty = p.sec ∷ d.dirty;
    })
  ]
]

-- `host` is the byte order of the machine that runs prelink: libelf has converted the blocks that
-- are not of bytes to it.
module _ (host : ByteOrder) where
  abbrev pub order_at : ByteOrder → Place → ByteOrder
  order_at o p = if p.bytes then o else host

  -- UREAD: `read_ule##nn` at `lsb`, `read_ube##nn` at `msb`.
  unfoldable pub read_u : ByteOrder → Width → ℕ → M ℕ
  read_u o w addr d =
      let (place, d') = get_data d addr in
      elim place [
        | none ↦ some (0, d')
        | some p ↦ elim (buf_read_une (order_at o p) w (bytes_at d' p)) [
          | none ↦ none
          | some v ↦ some (v, d')
        ]
      ]

  -- WRITE: `write_le##nn` at `lsb`, `write_be##nn` at `msb`; -1 is `false`.
  unfoldable pub write : ByteOrder → Width → ℕ → ℕ → M Bool
  write o w addr val d =
      let (place, d') = get_data d addr in
      elim place [
        | none ↦ some (false, d')
        | some p ↦ elim (change_at d' p (λ buf. buf_write_ne (order_at o p) w buf val)) [
          | none ↦ none
          | some d'' ↦ some (true, d'')
        ]
      ]

  -- READUNE and WRITENE: the byte order of the object.
  pub read_une : Width → ℕ → M ℕ
  read_une w addr d = read_u d.e_data w addr d

  pub write_ne : Width → ℕ → ℕ → M (Unit {0})
  write_ne w addr val d = elim (write d.e_data w addr val d) [
    | none ↦ none
    | some (_, d') ↦ some (tt, d')
  ]
