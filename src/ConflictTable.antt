-- ===== src/ConflictTable.antt =====
-- The conflicts of one library: how src/get.c records what the dynamic linker prints about them, and
-- how `prelink_conflict` of src/conflict.c finds them. A chain of `next` pointers is a list.
pub mod Buckets
pub mod Refines
mod Tests
use prelink_cross.Base.{
  ℕ, ◌+◌, ◌*◌, ◌%◌, Bool, true, false, ◌&&◌, Option, none, some, List, [], ◌∷◌, ◌==◌, if◌then◌else◌,
  get_or, set, replicate, u32,
}
use prelink_cross.Reloc.{Conflict}

-- `struct prelink_conflict`: `value` has the members that `Conflict` names.
pub record Entry : Type 0 where
  pub symoff : ℕ
  pub used : Bool
  pub value : Conflict

-- `hash` of `struct prelink_conflicts`: it points to `first`, or to 251 chains.
pub data Hash : Type 0 where
  chain : List Entry → Hash
  buckets : List (List Entry) → Hash

-- `struct prelink_conflicts`. `hash2` is of cxx.c.
pub record Conflicts : Type 0 where
  pub hash : Hash
  pub count : ℕ

-- What `calloc` leaves, with `hash` set to `first`.
abbrev pub no_conflicts : Conflicts
no_conflicts = record { hash = chain []; count = 0 }

abbrev pub same_key : Entry → ℕ → ℕ → Bool
same_key e symoff reloc_class = e.symoff == symoff && e.value.reloc_class == reloc_class

-- The walk along a chain.
unfoldable pub find_in : List Entry → ℕ → ℕ → Option Entry
find_in [] symoff reloc_class = none
find_in (e ∷ l) symoff reloc_class =
    if same_key e symoff reloc_class then some e else find_in l symoff reloc_class

-- The chain of `hash[idx]`.
unfoldable pub chain_of : Hash → ℕ → List Entry
chain_of (chain l) symoff = l
chain_of (buckets bs) symoff = get_or bs (symoff % 251) []

unfoldable pub push : List (List Entry) → Entry → List (List Entry)
push bs e = set bs (e.symoff % 251) (e ∷ get_or bs (e.symoff % 251) [])

-- The loop of `conflict_hash_init`.
unfoldable pub distribute : List Entry → List (List Entry) → List (List Entry)
distribute [] bs = bs
distribute (e ∷ l) bs = distribute l (push bs e)

-- `got` says that `calloc` succeeds.
unfoldable pub conflict_hash_init : Bool → List Entry → Hash
conflict_hash_init got l = if got then buckets (distribute l (replicate 251 [])) else chain l

unfoldable pub add_entry : Hash → Entry → Hash
add_entry (chain l) e = chain (e ∷ l)
add_entry (buckets bs) e = buckets (push bs e)

-- The call of `conflict_hash_init` at the 16th conflict. Were there buckets already, it would walk
-- the chain of a `first` that is out of date: that is `none`.
unfoldable pub count_up : Bool → Hash → ℕ → Option Hash
count_up got (chain l) n = some (if n == 16 then conflict_hash_init got l else chain l)
count_up got (buckets bs) n = if n == 16 then none else some (buckets bs)

pub data Error : Type 0 where
  differs no_memory undefined_ : Error

pub data Result (A : Type 0) : Type 0 where
  ok : A → Result A
  err : Error → Result A

-- The comparison with a conflict that is recorded already.
unfoldable pub agrees : Conflict → Conflict → Bool
agrees c v =
    c.lookup == v.lookup
    && c.conflict == v.conflict
    && c.lookupval == v.lookupval
    && c.conflictval == v.conflictval

-- A line that was read, and whether the allocations it leads to succeed: that of the conflict and
-- that of the chains.
pub record Line : Type 0 where
  pub symoff : ℕ
  pub value : Conflict
  pub malloc : Bool
  pub calloc : Bool

abbrev pub entry_of : Line → Entry
entry_of x = record { symoff = x.symoff; used = false; value = x.value }

-- The end of a line `lookup` or `conflict` in `prelink_record_relocations`, from the search on.
unfoldable pub record_line : Conflicts → Line → Result Conflicts
record_line t x = elim (find_in (chain_of t.hash x.symoff) x.symoff x.value.reloc_class) [
  | some e ↦ if agrees e.value x.value then ok t else err differs
  | none ↦
      if x.malloc
      then elim (count_up x.calloc (add_entry t.hash (entry_of x)) (t.count + 1)) [
        | none ↦ err undefined_
        | some h ↦ ok (record { hash = h; count = t.count + 1 })
      ]
      else err no_memory
]

unfoldable pub record_lines : Conflicts → List Line → Result Conflicts
record_lines t [] = ok t
record_lines t (x ∷ xs) = elim (record_line t x) [ ok t' ↦ record_lines t' xs | err e ↦ err e ]

-- `conflict->used = 1` on the conflict that the search stops at.
unfoldable pub mark : List Entry → ℕ → ℕ → List Entry
mark [] symoff reloc_class = []
mark (e ∷ l) symoff reloc_class =
    let rest = mark l symoff reloc_class in
    if same_key e symoff reloc_class then record e { used = true } ∷ l else e ∷ rest

unfoldable pub mark_in : Hash → ℕ → ℕ → Hash
mark_in (chain l) symoff reloc_class = chain (mark l symoff reloc_class)
mark_in (buckets bs) symoff reloc_class =
    buckets (set bs (symoff % 251) (mark (get_or bs (symoff % 251) []) symoff reloc_class))

-- `info->symtab_start` and `info->symtab_entsize`, `r_sym`, and the class of the relocation type.
unfoldable pub prelink_conflict : Conflicts → (ℕ × ℕ) → ℕ → ℕ → Option Conflict × Conflicts
prelink_conflict t (symtab_start, symtab_entsize) r_sym reloc_class =
    let symoff = u32 (symtab_start + r_sym * symtab_entsize) in
    elim (find_in (chain_of t.hash symoff) symoff reloc_class) [
      | none ↦ (none, t)
      | some e ↦ (some e.value, record t { hash = mark_in t.hash symoff reloc_class })
    ]
