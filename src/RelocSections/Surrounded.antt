-- ===== src/RelocSections/Surrounded.antt =====
-- What the search for the sections between two addresses of src/reloc.c checks.
use prelink_cross.Base.{
  ℕ, zero, suc, ◌+◌, ◌-◌, ◌≤◌, ◌<◌, ◌≡◌, refl, Bool, true, ◌&&◌, Option, none, some, List, arith,
  get_elem?, ◌==◌, add64, Bool-cases, Option-cases, inl, inr, subst,
}
use prelink_cross.Dso.{Dso, Shdr, addr_to_sec, last_holds, find_sec}
use prelink_cross.RelocSections.{reloc_type, ends_at, all_of_type, surrounded}

-- The sections from `first` to `last` are of the type; the first starts at `start`, and the last
-- ends at `end`.
pub record Surround (l : List Shdr) (type start end first last : ℕ) : Type 0 where
  pub at_start : (s : Shdr) × (get_elem? l first ≡ some s) × (s.sh_addr ≡ start)
  pub at_end : (s : Shdr) × (get_elem? l last ≡ some s) × (add64 s.sh_addr s.sh_size ≡ end)
  pub between :
      (i : ℕ) → first ≤ i → i ≤ last → (s : Shdr) × (get_elem? l i ≡ some s) × (s.sh_type ≡ type)

all_of_type-between :
    (l : List Shdr) (type j n : ℕ)
    → all_of_type l type j n ≡ true
    → (i : ℕ) → j ≤ i
    → i < j + n
    → (s : Shdr) × (get_elem? l i ≡ some s) × (s.sh_type ≡ type)
unfolding all_of_type
all_of_type-between l type j zero e i lo hi = absurd (omega arith)
all_of_type-between l type j (suc n) e i lo hi = elim (Option-cases (get_elem? l j)) [
  | inl g ↦ absurd (cc (rw (all_of_type, g) at e))
  | inr (s, g) ↦ elim (Bool-cases (i == j)) [
    | inl q ↦
        let same : i ≡ j = ground arith in
        let e' = rw (all_of_type, g) at e in
        let t : s.sh_type ≡ type = ground arith in rw same (s, g, t)
    | inr q ↦
        let e' = rw (all_of_type, g) at e in
        let more : all_of_type l type (suc j) n ≡ true = ground arith in
        all_of_type-between l type (suc j) n more i (ground arith) (omega arith)
  ]
]

pub surrounded-Surround :
    (rela : Bool) (start end : ℕ) (f g : Option ℕ) (l : List Shdr) (first last : ℕ)
    → surrounded rela start end f g l ≡ some (first, last)
    → Surround l (reloc_type rela) start end first last
unfolding surrounded
surrounded-Surround rela start end none g l first last e = cc
surrounded-Surround rela start end (some m) none l first last e = cc
surrounded-Surround rela start end (some m) (some n) l first last e =
    elim (Option-cases (get_elem? l m)) [
      | inl p ↦ absurd (cc (rw (surrounded, p) at e))
      | inr (s, p) ↦ elim (Option-cases (get_elem? l n)) [
        | inl q ↦ absurd (cc (rw (surrounded, p, q) at e))
        | inr (t, q) ↦
            elim (Bool-cases (
              s.sh_addr == start
              && ends_at t end
              && all_of_type l (reloc_type rela) m (suc n - m))) [
                | inr b ↦ absurd (cc (rw (surrounded, p, q, b) at e))
                | inl b ↦
                    let e' = rw (surrounded, p, q, b) at e in
                    let same_first : m ≡ first = cc e' in
                    let same_last : n ≡ last = cc e' in
                    let a1 : s.sh_addr ≡ start = ground arith in
                    let a2 : add64 t.sh_addr t.sh_size ≡ end = ground arith in
                    let a3 : all_of_type l (reloc_type rela) m (suc n - m) ≡ true = ground arith in
                    subst (λ x. Surround l (reloc_type rela) start end x last) same_first
                      (subst (λ x. Surround l (reloc_type rela) start end m x) same_last
                        (record {
                          at_start = (s, p, a1);
                          at_end = (t, q, a2);
                          between = λ i lo hi.
                              all_of_type-between l (reloc_type rela) m (suc n - m) a3 i lo
                                (omega arith);
                        }))
              ]
      ]
    ]

-- The search for a section keeps the sections.
pub addr_to_sec-shdr : (d : Dso) (addr : ℕ) → (addr_to_sec d addr).1.shdr ≡ d.shdr
unfolding addr_to_sec
addr_to_sec-shdr d addr = elim (Bool-cases (last_holds d addr)) [
  | inl h ↦ rw h refl
  | inr h ↦ elim (Option-cases (find_sec d.shdr addr 0)) [
    | inl f ↦ rw (h, f) refl
    | inr (k, f) ↦ rw (h, f) refl
  ]
]
