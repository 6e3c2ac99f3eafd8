-- ===== src/Data/Lookup.antt =====
-- Where an address lies does not depend on the bytes that stand there, nor on how often it is asked.
use prelink_cross.Base.{
  ℕ, zero, suc, ◌+◌, ◌≡◌, refl, ap, subst, true, Option, some, List, [], ◌∷◌, arith, get_elem?,
  get_or, set, drop, sub64, Option-cases, inl, inr,
}
use prelink_cross.Dso.{Dso, Block, last_holds, addr_to_sec}
use prelink_cross.Dso.Sections.{Holds, addr_to_sec-Holds}
use prelink_cross.Data.{Place, find_block, place_in, bytes_at, change_from, change_at}

last_holds-true :
    (d d' : Dso) (addr n : ℕ)
    → d'.shdr ≡ d.shdr
    → d'.lastscn ≡ n
    → Holds d.shdr addr n
    → last_holds d' addr ≡ true
last_holds-true d d' addr n same last (s, p, h) =
    let q : get_elem? d'.shdr d'.lastscn ≡ some s = rw (same, last) p in ground arith

-- A search that found a section finds it again at once, in any object with the same headers that
-- remembers it.
pub addr_to_sec-again :
    (d d' : Dso) (addr n : ℕ)
    → d'.shdr ≡ d.shdr
    → d'.lastscn ≡ n
    → addr_to_sec d addr ≡ (some n, record d { lastscn = n })
    → addr_to_sec d' addr ≡ (some n, d')
addr_to_sec-again d d' addr n same last e =
    let w = (addr_to_sec-Holds d addr n (record d { lastscn = n }) e).0 in
    unfold addr_to_sec in rw (last_holds-true d d' addr n same last w) (ap (λ k. (some k, d')) last)

find_block-set :
    (l : List Block) (sec off k j : ℕ) (b : Block) (buf : List ℕ)
    → get_elem? l j ≡ some b
    → find_block (set l j (record b { d_buf = buf })) sec off k ≡ find_block l sec off k
unfolding find_block
find_block-set [] sec off k j b buf e = refl
find_block-set (x ∷ l) sec off k zero b buf e = ground arith
find_block-set (x ∷ l) sec off k (suc j) b buf e =
    ground (arith, find_block-set l sec off (k + 1) j b buf e)

change_from-drop :
    (buf : List ℕ) (off : ℕ) (f : List ℕ → Option (List ℕ)) (buf' : List ℕ)
    → change_from buf off f ≡ some buf'
    → f (drop off buf) ≡ some (drop off buf')
unfolding change_from
change_from-drop buf zero f buf' e = e
change_from-drop [] (suc off) f buf' e = absurd (cc e)
change_from-drop (x ∷ buf) (suc off) f buf' e = elim (Option-cases (change_from buf off f)) [
  | inl g ↦ ground arith
  | inr (m, g) ↦ let q : x ∷ m ≡ buf' = ground arith in rw (← q) (change_from-drop buf off f m g)
]

-- What a write at a place leaves: the lookup of any offset is as before, and the bytes from the
-- place on are the result of the change.
pub record Changed (d : Dso) (p : Place) (f : List ℕ → Option (List ℕ)) (d' : Dso) : Type 0 where
  pub same_shdr : d'.shdr ≡ d.shdr
  pub same_lastscn : d'.lastscn ≡ d.lastscn
  pub same_e_data : d'.e_data ≡ d.e_data
  pub flags : d'.dirty ≡ p.sec ∷ d.dirty
  pub same_place : (n addr : ℕ) → place_in d' n addr ≡ place_in d n addr
  pub result : f (bytes_at d p) ≡ some (bytes_at d' p)

find_block-scn :
    (scn : List (List Block)) (i n sec off k j : ℕ) (b : Block) (buf : List ℕ)
    → get_elem? (get_or scn i []) j ≡ some b
    → find_block
        (get_or (set scn i (set (get_or scn i []) j (record b { d_buf = buf }))) n [])
        sec
        off
        k
      ≡ find_block (get_or scn n []) sec off k
find_block-scn [] i n sec off k j b buf e = refl
find_block-scn (l ∷ scn) zero zero sec off k j b buf e = find_block-set l sec off k j b buf e
find_block-scn (l ∷ scn) zero (suc n) sec off k j b buf e = refl
find_block-scn (l ∷ scn) (suc i) zero sec off k j b buf e = refl
find_block-scn (l ∷ scn) (suc i) (suc n) sec off k j b buf e =
    find_block-scn scn i n sec off k j b buf e

get_elem?-set_list :
    (l : List Block) (j : ℕ) (b c : Block)
    → get_elem? l j ≡ some b
    → get_elem? (set l j c) j ≡ some c
get_elem?-set_list [] j b c e = absurd (cc e)
get_elem?-set_list (x ∷ l) zero b c e = refl
get_elem?-set_list (x ∷ l) (suc j) b c e = get_elem?-set_list l j b c e

get_elem?-set_scn :
    (scn : List (List Block)) (i j : ℕ) (b c : Block)
    → get_elem? (get_or scn i []) j ≡ some b
    → get_elem? (get_or (set scn i (set (get_or scn i []) j c)) i []) j ≡ some c
get_elem?-set_scn [] i j b c e = absurd (cc e)
get_elem?-set_scn (l ∷ scn) zero j b c e = get_elem?-set_list l j b c e
get_elem?-set_scn (l ∷ scn) (suc i) j b c e = get_elem?-set_scn scn i j b c e

module _ (d : Dso) (p : Place) (f : List ℕ → Option (List ℕ)) (b : Block) (buf : List ℕ)
    (old : get_elem? (get_or d.scn p.sec []) p.block ≡ some b)
    (new : change_from b.d_buf p.off f ≡ some buf) where
  abbrev after : Dso
  after = record d {
    scn = set d.scn p.sec (set (get_or d.scn p.sec []) p.block (record b { d_buf = buf }));
    dirty = p.sec ∷ d.dirty;
  }

  place_in-after : (n addr : ℕ) → place_in after n addr ≡ place_in d n addr
  unfolding place_in
  place_in-after n addr = elim (Option-cases (get_elem? d.shdr n)) [
    | inl e ↦ ground arith
    | inr (s, e) ↦
        ground (arith, find_block-scn d.scn p.sec n n (sub64 addr s.sh_addr) 0 p.block b buf old)
  ]

  bytes_at-after : f (bytes_at d p) ≡ some (bytes_at after p)
  bytes_at-after = ground (
    arith,
    old,
    get_elem?-set_scn d.scn p.sec p.block b (record b { d_buf = buf }) old,
    change_from-drop b.d_buf p.off f buf new,
  )

  after-Changed : Changed d p f after
  after-Changed = record {
    same_shdr = refl;
    same_lastscn = refl;
    same_e_data = refl;
    flags = refl;
    same_place = place_in-after;
    result = bytes_at-after;
  }

pub change_at-Changed :
    (d : Dso) (p : Place) (f : List ℕ → Option (List ℕ)) (d' : Dso)
    → change_at d p f ≡ some d'
    → Changed d p f d'
unfolding change_at
change_at-Changed d p f d' e = elim (Option-cases (get_elem? (get_or d.scn p.sec []) p.block)) [
  | inl g ↦ absurd (ground arith)
  | inr (b, g) ↦ elim (Option-cases (change_from b.d_buf p.off f)) [
    | inl h ↦ absurd (ground arith)
    | inr (buf, h) ↦
        let q : after d p f b buf g h ≡ d' = ground arith in
        subst (Changed d p f) q (after-Changed d p f b buf g h)
  ]
]
