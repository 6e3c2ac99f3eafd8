-- ===== src/Space/Room.antt =====
-- The room of a segment in src/space.c: behind the program headers, and up to the next segment.
use prelink_cross.Base.{
  ℕ, ◌+◌, ◌*◌, ◌^◌, ◌<◌, ◌≤◌, ◌≡◌, ◌⊎◌, inl, inr, Bool, true, ◌&&◌, Option, none, some, List, [],
  ◌∷◌, length, All, leb, ltb, ◌==◌, if◌then◌else◌, add64, sub64, Bool-cases, arith,
}
use prelink_cross.Dso.{Phdr}
use prelink_cross.Space.{Image, file_end, first_such}
use prelink_cross.Space.Gap.{headers_size, behind_headers, next_offset, has_room}

-- A later segment that is behind `p` in the file has `size` bytes or more before it.
abbrev pub IsClear : Phdr → ℕ → List Phdr → Type 0
IsClear p size later =
    All (λ (q : Phdr). p.p_offset + p.p_filesz ≤ q.p_offset → size ≤ q.p_offset) later

abbrev Passes : ℕ → Option ℕ → Type 0
Passes size none = Unit
Passes size (some o) = size ≤ o

-- The step of the loop of `next_offset`.
abbrev lower_one : Phdr → Phdr → Option ℕ → Option ℕ
lower_one p q min =
    if leb (add64 p.p_offset p.p_filesz) q.p_offset
      && elim min [ none ↦ true | some o ↦ ltb q.p_offset o ]
    then some q.p_offset
    else min

module _ (p : Phdr) (size : ℕ) (fits : p.p_offset + p.p_filesz < 2 ^ 64) where
  abbrev BothPass : Option ℕ → Phdr → Type 0
  BothPass min q = Passes size min × (p.p_offset + p.p_filesz ≤ q.p_offset → size ≤ q.p_offset)

  lower_one-BothPass :
      (q : Phdr) (min : Option ℕ) → Passes size (lower_one p q min) → BothPass min q
  lower_one-BothPass q none h = elim (Bool-cases (leb (add64 p.p_offset p.p_filesz) q.p_offset)) [
    | inl c ↦ let h' = rw c at h in (tt, λ le. h')
    | inr c ↦ (tt, λ le. absurd (ground arith))
  ]
  lower_one-BothPass q (some o) h =
      elim (Bool-cases (leb (add64 p.p_offset p.p_filesz) q.p_offset)) [
        | inr c ↦ let h' = rw c at h in (h', λ le. absurd (ground arith))
        | inl c ↦ elim (Bool-cases (ltb q.p_offset o)) [
          | inl d ↦ let h' = rw (c, d) at h in (ground arith, λ le. h')
          | inr d ↦ let h' = rw (c, d) at h in (h', λ le. ground arith)
        ]
      ]

  next_offset-IsClear :
      (l : List Phdr) (min : Option ℕ)
      → Passes size (next_offset p l min)
      → Passes size min × IsClear p size l
  unfolding next_offset
  next_offset-IsClear [] min h = (h, tt)
  next_offset-IsClear (q ∷ l) min h =
      let on = next_offset-IsClear l (lower_one p q min) h in
      let both = lower_one-BothPass q min on.0 in (both.0, (both.1, on.1))

  passed : (o : Option ℕ) → (elim o [ none ↦ true | some o' ↦ leb size o' ]) ≡ true → Passes size o
  passed none e = tt
  passed (some o) e = ground arith

-- What `has_room` says of an end within reach: it lies in the segment, or the segment has no .bss and
-- can grow up to it.
pub has_room-IsClear :
    (p : Phdr) (later : List Phdr) (end : ℕ)
    → p.p_offset + p.p_filesz < 2 ^ 64
    → p.p_vaddr + p.p_filesz < 2 ^ 64
    → has_room p later end ≡ true
    → (end ≤ p.p_vaddr + p.p_filesz)
      ⊎ (p.p_filesz ≡ p.p_memsz) × IsClear p (sub64 end p.p_vaddr) later
unfolding has_room
has_room-IsClear p later end fits_o fits_v h = elim (Bool-cases (leb end (file_end p))) [
  | inl c ↦ inl (ground arith)
  | inr c ↦ elim (Bool-cases (p.p_filesz == p.p_memsz)) [
    | inr d ↦ absurd (cc (rw (c, d) at h))
    | inl d ↦ inr (
      ground arith,
      (next_offset-IsClear p (sub64 end p.p_vaddr) fits_o later none
          (passed p (sub64 end p.p_vaddr) fits_o _ (rw (c, d) at h))).1,
    )
  ]
]

first_such-passes :
    (test : Phdr → Bool) (l : List Phdr) (n : ℕ)
    → ((q : Phdr) → test q ≡ true → n ≤ q.p_filesz)
    → n ≤ (elim (first_such test l) [ none ↦ n | some q ↦ q.p_filesz ])
first_such-passes test [] n h = omega arith
first_such-passes test (q ∷ l) n h = elim (Bool-cases (test q)) [
  | inl c ↦ rw c (h q c)
  | inr c ↦ rw c (first_such-passes test l n h)
]

headers_size-table : (im : Image) → length im.phdr * im.e_phentsize ≤ headers_size im
unfolding headers_size
headers_size-table im = first_such-passes _ im.phdr _ (λ q e. ground arith)

-- Behind the table of the program headers, if it starts in the segment.
abbrev pub IsBehindTable : Image → Phdr → ℕ → Type 0
IsBehindTable im p start =
    (p.p_vaddr ≤ start)
    × (p.p_offset < im.e_phoff
        → p.p_vaddr + im.e_phoff + length im.phdr * im.e_phentsize ≤ start + p.p_offset)

pub behind_headers-IsBehindTable :
    (im : Image) (p : Phdr) (start : ℕ)
    → p.p_vaddr + im.e_phoff + headers_size im < 2 ^ 64
    → behind_headers im p ≤ start
    → IsBehindTable im p start
unfolding behind_headers
behind_headers-IsBehindTable im p start room le =
    let table = headers_size-table im in
    elim (Bool-cases (ltb p.p_offset im.e_phoff)) [
      | inl c ↦
          let lt : p.p_offset < im.e_phoff = ground arith in
          let le' = rw c at le in (omega (arith, table, le'), λ _. omega (arith, table, le'))
      | inr c ↦ let le' = rw c at le in (le', λ lt. absurd (ground arith))
    ]
