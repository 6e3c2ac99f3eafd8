-- ===== src/Dso/Sections.antt =====
-- The section of an address: what `addr_to_sec` finds, and that its cache `lastscn` does not show.
use prelink_cross.Base.{
  ℕ, zero, suc, ◌+◌, ◌≡◌, refl, inl, inr, true, Option, none, some, List, [], ◌∷◌, arith, get_elem?,
  Bool-cases, Option-cases, ap, subst, ◌↔◌,
}
use prelink_cross.Dso.{Dso, Shdr, holds_addr, find_sec, last_holds, addr_to_sec}

-- Section `n` holds the address.
abbrev pub Holds : List Shdr → ℕ → ℕ → Type 0
Holds l addr n = (s : Shdr) × (get_elem? l n ≡ some s) × (holds_addr s addr ≡ true)

-- No two sections hold one address.
abbrev pub AreDisjoint : List Shdr → Type 0
AreDisjoint l = (addr n m : ℕ) → Holds l addr n → Holds l addr m → n ≡ m

find_sec-Holds :
    (l : List Shdr) (addr i n : ℕ)
    → find_sec l addr i ≡ some n
    → (k : ℕ) × (n ≡ i + k) × Holds l addr k
unfolding find_sec
find_sec-Holds [] addr i n e = cc
find_sec-Holds (s ∷ l) addr i n e = elim (Bool-cases (holds_addr s addr)) [
  | inl h ↦ (0, ground arith, (s, refl, h))
  | inr h ↦ let (k, p, w) = find_sec-Holds l addr (i + 1) n (rw h at e) in (suc k, omega arith, w)
]

find_sec-none : (l : List Shdr) (addr i : ℕ) → find_sec l addr i ≡ none → (n : ℕ) → ¬ Holds l addr n
unfolding find_sec
find_sec-none [] addr i e n (s, p, h) = cc
find_sec-none (s ∷ l) addr i e zero (t, p, h) = ground arith
find_sec-none (s ∷ l) addr i e (suc n) w = elim (Bool-cases (holds_addr s addr)) [
  | inl h ↦ ground arith
  | inr h ↦ find_sec-none l addr (i + 1) (rw h at e) n w
]

last_holds-Holds : (d : Dso) (addr : ℕ) → last_holds d addr ≡ true → Holds d.shdr addr d.lastscn
last_holds-Holds d addr h = elim (Option-cases (get_elem? d.shdr d.lastscn)) [
  | inl e ↦ ground arith
  | inr (s, e) ↦ (s, e, ground arith)
]

-- A section that `addr_to_sec` returns holds the address, and the object is left as it was but for
-- `lastscn`, which is that section.
pub addr_to_sec-Holds :
    (d : Dso) (addr n : ℕ) (d' : Dso)
    → addr_to_sec d addr ≡ (some n, d')
    → Holds d.shdr addr n × (d' ≡ record d { lastscn = n })
unfolding addr_to_sec
addr_to_sec-Holds d addr n d' e = elim (Bool-cases (last_holds d addr)) [
  | inl h ↦
      let p = rw h at e in
      let q : d.lastscn ≡ n = cc p in
      (subst (Holds d.shdr addr) q (last_holds-Holds d addr h), cc (p, q))
  | inr h ↦ elim (Option-cases (find_sec d.shdr addr 0)) [
    | inl f ↦ absurd (cc (rw (h, f) at e))
    | inr (k, f) ↦
        let p = rw (h, f) at e in
        let (j, q, w) = find_sec-Holds d.shdr addr 0 k f in
        (subst (Holds d.shdr addr) (ground arith) w, ground arith)
  ]
]

-- `addr_to_sec` returns -1 exactly when no section holds the address, and then leaves the object
-- as it was.
pub addr_to_sec-none_iff :
    (d : Dso) (addr : ℕ) → (addr_to_sec d addr ≡ (none, d)) ↔ ((n : ℕ) → ¬ Holds d.shdr addr n)
unfolding addr_to_sec
addr_to_sec-none_iff d addr = elim (Bool-cases (last_holds d addr)) [
  | inl h ↦ rw h (
    (λ e. absurd (cc e)),
    (λ none_holds. absurd (none_holds d.lastscn (last_holds-Holds d addr h))),
  )
  | inr h ↦ elim (Option-cases (find_sec d.shdr addr 0)) [
    | inl f ↦ rw (h, f) ((λ e. find_sec-none d.shdr addr 0 f), (λ none_holds. refl))
    | inr (k, f) ↦
        let (j, q, w) = find_sec-Holds d.shdr addr 0 k f in
        rw (h, f) ((λ e. absurd (cc e)), (λ none_holds. absurd (none_holds j w)))
  ]
]

-- What the search finds: a section that holds the address, or that there is none.
abbrev Outcome : List Shdr → ℕ → Option ℕ → Type 0
Outcome l addr none = (n : ℕ) → ¬ Holds l addr n
Outcome l addr (some n) = Holds l addr n

addr_to_sec-Outcome : (d : Dso) (addr : ℕ) → Outcome d.shdr addr (addr_to_sec d addr).0
unfolding addr_to_sec
addr_to_sec-Outcome d addr = elim (Bool-cases (last_holds d addr)) [
  | inl h ↦ rw h (last_holds-Holds d addr h)
  | inr h ↦ elim (Option-cases (find_sec d.shdr addr 0)) [
    | inl f ↦ rw (h, f) (find_sec-none d.shdr addr 0 f)
    | inr (k, f) ↦
        let (j, q, w) = find_sec-Holds d.shdr addr 0 k f in
        rw (h, f) (subst (Holds d.shdr addr) (omega arith) w)
  ]
]

Outcome-unique :
    (l : List Shdr) (addr : ℕ) (r s : Option ℕ)
    → AreDisjoint l
    → Outcome l addr r
    → Outcome l addr s
    → r ≡ s
Outcome-unique l addr none none dis p q = refl
Outcome-unique l addr none (some n) dis p q = absurd (p n q)
Outcome-unique l addr (some n) none dis p q = absurd (q n p)
Outcome-unique l addr (some n) (some m) dis p q = ap some (dis addr n m p q)

-- Where no two sections hold one address, the section that the last search left in `lastscn` does
-- not change which section is found.
pub addr_to_sec-lastscn :
    (d : Dso) (addr j : ℕ)
    → AreDisjoint d.shdr
    → (addr_to_sec (record d { lastscn = j }) addr).0 ≡ (addr_to_sec d addr).0
addr_to_sec-lastscn d addr j dis =
    Outcome-unique d.shdr addr _ _ dis (addr_to_sec-Outcome (record d { lastscn = j }) addr)
      (addr_to_sec-Outcome d addr)
