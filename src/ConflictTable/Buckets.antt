-- ===== src/ConflictTable/Buckets.antt =====
-- The search after each change of the chains: what is found does not depend on how the conflicts
-- are spread over them.
use prelink_cross.Base.{
  ℕ, zero, suc, ◌%◌, ◌≤◌, ◌<◌, ◌≡◌, ◌≢◌, refl, sym, ap, ◌∙◌, Bool, true, false, Option, none, some,
  List, [], ◌∷◌, arith, ==_iff, ◌==◌, if◌then◌else◌, get_or, set, length, length-set,
  length-replicate, replicate, Bool-cases, inl, inr,
}
use prelink_cross.Reloc.{Conflict}
use prelink_cross.ConflictTable.{
  Entry, Hash, chain, buckets, same_key, find_in, chain_of, push, distribute, conflict_hash_init,
  add_entry, mark, mark_in,
}

pub get_or-set_self :
    {A : Type 0} (xs : List A) (i : ℕ) (v d : A) → i < length xs → get_or (set xs i v) i d ≡ v
get_or-set_self [] i v d h = absurd (omega arith)
get_or-set_self (x ∷ xs) zero v d h = refl
get_or-set_self (x ∷ xs) (suc i) v d h = get_or-set_self xs i v d (omega arith)

pub get_or-set_ne :
    {A : Type 0} (xs : List A) (i j : ℕ) (v d : A) → i ≢ j → get_or (set xs i v) j d ≡ get_or xs j d
get_or-set_ne [] i j v d h = refl
get_or-set_ne (x ∷ xs) zero zero v d h = absurd (h refl)
get_or-set_ne (x ∷ xs) zero (suc j) v d h = refl
get_or-set_ne (x ∷ xs) (suc i) zero v d h = refl
get_or-set_ne (x ∷ xs) (suc i) (suc j) v d h = get_or-set_ne xs i j v d (λ e. h (ap suc e))

-- The search over all chains.
abbrev pub find : Hash → ℕ → ℕ → Option Entry
find h s c = find_in (chain_of h s) s c

-- No two conflicts have the same offset and class.
abbrev pub IsDistinct : List Entry → Type 0
IsDistinct [] = Unit
IsDistinct (e ∷ l) = (find_in l e.symoff e.value.reloc_class ≡ none) × IsDistinct l

abbrev or_else : Option Entry → Option Entry → Option Entry
or_else none o = o
or_else (some e) o = some e

far_key : (e : Entry) (s c : ℕ) → (e.symoff % 251 == s % 251) ≡ false → same_key e s c ≡ false
far_key e s c p = ground (arith, p)

-- A search that misses the pushed conflict sees the chains before.
find-push :
    (bs : List (List Entry)) (e : Entry) (s c : ℕ)
    → length bs ≡ 251
    → find (buckets (push bs e)) s c ≡ (if same_key e s c then some e else find (buckets bs) s c)
unfolding push chain_of find_in
find-push bs e s c len = elim (Bool-cases (e.symoff % 251 == s % 251)) [
  | inl p ↦
      let q = (==_iff (e.symoff % 251) (s % 251)).0 p in
      rw (q, get_or-set_self bs (s % 251) (e ∷ get_or bs (s % 251) []) [] (omega arith)) refl
  | inr p ↦
      let q : e.symoff % 251 ≢ s % 251 = ground (arith, p) in
      rw (far_key e s c p) (ap (λ l. find_in l s c) (get_or-set_ne bs _ (s % 251) _ [] q))
]

pub length-push : (bs : List (List Entry)) (e : Entry) → length (push bs e) ≡ length bs
unfolding push
length-push bs e = length-set bs _ _

pub key_eq :
    (e : Entry) (s c : ℕ) → same_key e s c ≡ true → (e.symoff ≡ s) × (e.value.reloc_class ≡ c)
key_eq e s c p = (ground (arith, p), ground (arith, p))

pub absent :
    (e : Entry) (l : List Entry) (s c : ℕ)
    → find_in l e.symoff e.value.reloc_class ≡ none
    → same_key e s c ≡ true
    → find_in l s c ≡ none
absent e l s c new p = let (q, r) = key_eq e s c p in rw (sym q, sym r) new

-- Of distinct conflicts that are spread, the search finds the one of its key.
find-distribute :
    (l : List Entry) (bs : List (List Entry)) (s c : ℕ)
    → length bs ≡ 251
    → IsDistinct l
    → find (buckets (distribute l bs)) s c ≡ or_else (find_in l s c) (find (buckets bs) s c)
unfolding distribute find_in
find-distribute [] bs s c len h = refl
find-distribute (e ∷ l) bs s c len (new, h) =
    find-distribute l (push bs e) s c (length-push bs e ∙ len) h
    ∙ rw (find-push bs e s c len) (elim (Bool-cases (same_key e s c)) [
      | inl p ↦ rw (p, absent e l s c new p) refl
      | inr p ↦ rw p refl
    ])

pub length-distribute :
    (l : List Entry) (bs : List (List Entry)) → length (distribute l bs) ≡ length bs
unfolding distribute
length-distribute [] bs = refl
length-distribute (e ∷ l) bs = length-distribute l (push bs e) ∙ length-push bs e

abbrev pub no_entry : List Entry
no_entry = []

empty_chains : (n k : ℕ) → get_or (replicate n no_entry) k [] ≡ []
empty_chains zero k = refl
empty_chains (suc n) zero = refl
empty_chains (suc n) (suc k) = empty_chains n k

or_else-none : (o : Option Entry) → or_else o none ≡ o
or_else-none none = refl
or_else-none (some e) = refl

-- `conflict_hash_init` does not change what is found.
pub find-conflict_hash_init :
    (got : Bool) (l : List Entry) (s c : ℕ)
    → IsDistinct l
    → find (conflict_hash_init got l) s c ≡ find_in l s c
unfolding conflict_hash_init chain_of find_in
find-conflict_hash_init false l s c h = refl
find-conflict_hash_init true l s c h =
    find-distribute l (replicate 251 []) s c (length-replicate 251 no_entry) h
    ∙ rw (empty_chains 251 (s % 251)) (or_else-none (find_in l s c))

-- Chains whose conflicts `count` counts: the search stops at one conflict for each key, and the
-- buckets are 251 and hold 16 conflicts or more.
abbrev pub IsShaped : Hash → ℕ → Type 0
IsShaped (chain l) n = IsDistinct l
IsShaped (buckets bs) n = (length bs ≡ 251) × (16 ≤ n)

pub find-add_entry :
    (h : Hash) (n : ℕ) (e : Entry) (s c : ℕ)
    → IsShaped h n
    → find (add_entry h e) s c ≡ (if same_key e s c then some e else find h s c)
unfolding add_entry chain_of find_in
find-add_entry (chain l) n e s c h = refl
find-add_entry (buckets bs) n e s c (len, big) = find-push bs e s c len

-- What is asked of a conflict: everything but its mark.
abbrev pub value_of : Option Entry → Option Conflict
value_of none = none
value_of (some e) = some e.value

find_in-mark :
    (l : List Entry) (s c s' c' : ℕ)
    → value_of (find_in (mark l s' c') s c) ≡ value_of (find_in l s c)
unfolding find_in mark
find_in-mark [] s c s' c' = refl
find_in-mark (e ∷ l) s c s' c' = elim (Bool-cases (same_key e s' c')) [
  | inl p ↦ elim (Bool-cases (same_key e s c)) [ inl q ↦ rw (p, q) refl | inr q ↦ rw (p, q) refl ]
  | inr p ↦ elim (Bool-cases (same_key e s c)) [
    | inl q ↦ rw (p, q) refl
    | inr q ↦ rw (p, q) (find_in-mark l s c s' c')
  ]
]

-- Marks change no search.
pub find-mark_in :
    (h : Hash) (n s c s' c' : ℕ)
    → IsShaped h n
    → value_of (find (mark_in h s' c') s c) ≡ value_of (find h s c)
unfolding mark_in chain_of
find-mark_in (chain l) n s c s' c' h = find_in-mark l s c s' c'
find-mark_in (buckets bs) n s c s' c' (len, big) =
    let marked = mark (get_or bs (s' % 251) []) s' c' in
    elim (Bool-cases (s' % 251 == s % 251)) [
      | inl p ↦
          let q = (==_iff (s' % 251) (s % 251)).0 p in
          rw
            (q, get_or-set_self bs (s % 251) (mark (get_or bs (s % 251) []) s' c') [] (omega arith))
            (find_in-mark (get_or bs (s % 251) []) s c s' c')
      | inr p ↦
          let q : s' % 251 ≢ s % 251 = ground (arith, p) in
          ap (λ l. value_of (find_in l s c)) (get_or-set_ne bs (s' % 251) (s % 251) marked [] q)
    ]

value_of-none : (o : Option Entry) → value_of o ≡ none → o ≡ none
value_of-none none e = refl
value_of-none (some x) e = absurd (cc e)

IsDistinct-mark : (l : List Entry) (s c : ℕ) → IsDistinct l → IsDistinct (mark l s c)
unfolding mark
IsDistinct-mark [] s c h = tt
IsDistinct-mark (e ∷ l) s c (new, h) = elim (Bool-cases (same_key e s c)) [
  | inl p ↦ rw p (new, h)
  | inr p ↦
      let same = find_in-mark l e.symoff e.value.reloc_class s c in
      rw p (value_of-none _ (same ∙ ap value_of new), IsDistinct-mark l s c h)
]

pub IsShaped-mark_in : (h : Hash) (n s c : ℕ) → IsShaped h n → IsShaped (mark_in h s c) n
unfolding mark_in
IsShaped-mark_in (chain l) n s c h = IsDistinct-mark l s c h
IsShaped-mark_in (buckets bs) n s c (len, big) = (length-set bs _ _ ∙ len, big)
