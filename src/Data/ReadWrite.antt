-- ===== src/Data/ReadWrite.antt =====
-- A word that is written at an address is read there.
use prelink_cross.Base.{
  ℕ, ◌+◌, ◌<◌, ◌≡◌, ap, ap₂, ◌∙◌, true, Option, some, List, [], ◌∷◌, arith, get_elem?, get_or,
  sub64, Option-cases, inl, inr,
}
use prelink_cross.Bytes.{ByteOrder, Width, limit_of, buf_write_ne}
use prelink_cross.Bytes.RoundTrip.{buf_read-written}
use prelink_cross.Dso.{Dso, Block, addr_to_sec}
use prelink_cross.Dso.Sections.{addr_to_sec-Holds}
use prelink_cross.Data.{
  Place, find_block, place_in, get_data, bytes_at, change_at, order_at, read_u, write,
}
use prelink_cross.Data.Lookup.{addr_to_sec-again, Changed, change_at-Changed}

find_block-sec :
    (l : List Block) (sec off k : ℕ) (p : Place) → find_block l sec off k ≡ some p → p.sec ≡ sec
unfolding find_block
find_block-sec [] sec off k p e = absurd (cc e)
find_block-sec (b ∷ l) sec off k p e = ground (arith, find_block-sec l sec off (k + 1) p)

place_in-sec : (d : Dso) (n addr : ℕ) (p : Place) → place_in d n addr ≡ some p → p.sec ≡ n
unfolding place_in
place_in-sec d n addr p e = elim (Option-cases (get_elem? d.shdr n)) [
  | inl g ↦ absurd (ground arith)
  | inr (s, g) ↦ find_block-sec (get_or d.scn n []) n (sub64 addr s.sh_addr) 0 p (ground arith)
]

-- A pointer comes from a section that is then remembered.
get_data-some :
    (d : Dso) (addr : ℕ) (p : Place)
    → (get_data d addr).0 ≡ some p
    → (n : ℕ) × (addr_to_sec d addr ≡ (some n, record d { lastscn = n }))
      × (place_in (record d { lastscn = n }) n addr ≡ some p)
      × ((get_data d addr).1 ≡ record d { lastscn = n })
unfolding get_data
get_data-some d addr p e = elim (Option-cases (addr_to_sec d addr).0) [
  | inl g ↦ absurd (ground arith)
  | inr (n, g) ↦
      let q : addr_to_sec d addr ≡ (some n, (addr_to_sec d addr).1) = ground arith in
      let (w, same) = addr_to_sec-Holds d addr n (addr_to_sec d addr).1 q in
      (n, ground arith, ground arith, ground arith)
]

get_data-again :
    (d d' : Dso) (addr : ℕ) (p : Place) (f : List ℕ → Option (List ℕ))
    → (get_data d addr).0 ≡ some p
    → Changed (get_data d addr).1 p f d'
    → get_data d' addr ≡ (some p, d')
unfolding get_data
get_data-again d d' addr p f e c =
    let (n, found, place, now) = get_data-some d addr p e in
    let again : addr_to_sec d' addr ≡ (some n, d') =
      addr_to_sec-again d d' addr n (c.same_shdr ∙ ap (λ (x : Dso). x.shdr) now)
        (c.same_lastscn ∙ ap (λ (x : Dso). x.lastscn) now) found in
    let there : place_in d' n addr ≡ some p =
      c.same_place n addr ∙ ap (λ (x : Dso). place_in x n addr) now ∙ place in
    ground (arith, again, there)

-- What a successful write at an address leaves.
pub record Written (host o : ByteOrder) (w : Width) (d : Dso) (addr val : ℕ) (d' : Dso)
    : Type 0 where
  pub place : Place
  pub found : (get_data d addr).0 ≡ some place
  pub changed :
      Changed (get_data d addr).1 place (λ buf. buf_write_ne (order_at host o place) w buf val) d'

pub write-Written :
    (host o : ByteOrder) (w : Width) (d : Dso) (addr val : ℕ) (d' : Dso)
    → write host o w addr val d ≡ some (true, d')
    → Written host o w d addr val d'
unfolding write
write-Written host o w d addr val d' e = elim (Option-cases (get_data d addr).0) [
  | inl g ↦ absurd (ground arith)
  | inr (p, g) ↦
      let f : List ℕ → Option (List ℕ) = λ buf. buf_write_ne (order_at host o p) w buf val in
      elim (Option-cases (change_at (get_data d addr).1 p f)) [
        | inl h ↦ absurd (ground arith)
        | inr (m, h) ↦
            let q : m ≡ d' = ground arith in
            record { place = p; found = g; changed = change_at-Changed _ p f d' (h ∙ ap some q) }
      ]
]

-- A write that returns 0 flags the section that it changes, leaves the section headers alone, and
-- a read of the same width, in the same byte order, at the same address returns the word that was
-- written.
pub read_u-write :
    (host o : ByteOrder) (w : Width) (d : Dso) (addr val : ℕ) (d' : Dso)
    → val < limit_of w
    → write host o w addr val d ≡ some (true, d')
    → (read_u host o w addr d' ≡ some (val, d'))
      × (d'.shdr ≡ d.shdr)
      × ((n : ℕ) × ((addr_to_sec d addr).0 ≡ some n) × (d'.lastscn ≡ n) × (d'.dirty ≡ n ∷ d.dirty))
unfolding read_u
read_u-write host o w d addr val d' lt e =
    let v = write-Written host o w d addr val d' e in
    let again = get_data-again d d' addr v.place _ v.found v.changed in
    let back =
      buf_read-written (order_at host o v.place) w _ val (bytes_at d' v.place) lt
        v.changed.result in
    let (n, found, place, now) = get_data-some d addr v.place v.found in
    (
      ground (arith, again, back),
      v.changed.same_shdr ∙ ap (λ (x : Dso). x.shdr) now,
      (
        n,
        ap (λ (x : Option ℕ × Dso). x.0) found,
        v.changed.same_lastscn ∙ ap (λ (x : Dso). x.lastscn) now,
        v.changed.flags
            ∙ ap₂ ◌∷◌ (place_in-sec _ n addr v.place place) (ap (λ (x : Dso). x.dirty) now),
      ),
    )
