-- ===== src/Dso/Record.antt =====
-- How `adjust_dso` extends the list of adjustments.
use prelink_cross.Base.{
  ℕ, ◌+◌, ◌^◌, ◌≤◌, ◌<◌, ◌≡◌, refl, ap, ◌∙◌, some, List, inl, inr, [], ◌∷◌, arith, Bool-cases, leb,
  ltb, ltb→lt, if◌then◌else◌, All, All-map,
}
use prelink_cross.Dso.{
  Dso, PlAdjust, bump, addr_adjust, adjust_old_to_new, insert_adjust, record_adjust,
}
use prelink_cross.Dso.Adjust.{
  moved, moved-lt, IsLayered, Fits, StartsFit, class_limit, class_limit-le, old_to_new-moved,
  new_to_old-moved,
}

-- The shift `n` is added to the shift of each entry without a wrap.
abbrev pub Grows : ℕ → List PlAdjust → Type 0
Grows n l = All (λ (e : PlAdjust). e.adjust + n < 2 ^ 64) l

-- Every recorded start is at `start` or above.
abbrev pub AllAbove : ℕ → List PlAdjust → Type 0
AllAbove start l = All (λ (e : PlAdjust). start ≤ e.start) l

-- The list that an insertion at `start` below all others leaves.
abbrev extended : List PlAdjust → ℕ → ℕ → List PlAdjust
extended [] start n = record { start = start; adjust = n } ∷ []
extended (e ∷ l) start n = if ltb start e.start then bump e n ∷ extended l start n else bump e n ∷ l

insert_adjust-extended :
    (l : List PlAdjust) (start n : ℕ)
    → AllAbove start l
    → insert_adjust l start n ≡ some (extended l start n)
unfolding insert_adjust
insert_adjust-extended [] start n h = refl
insert_adjust-extended (e ∷ l) start n (p, h) = ground (arith, insert_adjust-extended l start n h)

moved-extended :
    (l : List PlAdjust) (start n addr : ℕ)
    → Grows n l
    → AllAbove start l
    → moved (extended l start n) addr ≡ (if leb start addr then moved l addr + n else moved l addr)
moved-extended [] start n addr g h = refl
moved-extended (e ∷ l) start n addr (g, gs) (h, hs) =
    ground (arith, moved-extended l start n addr gs hs)

extended-below :
    (l : List PlAdjust) (start n top bound : ℕ)
    → Grows n l
    → start < top
    → All (λ (f : PlAdjust). (f.start < top) × (f.adjust ≤ bound)) l
    → All (λ (f : PlAdjust). (f.start < top) × (f.adjust ≤ bound + n)) (extended l start n)
extended-below [] start n top bound g lt h = omega arith
extended-below (e ∷ l) start n top bound g lt h = elim (Bool-cases (ltb start e.start)) [
  | inl p ↦ rw p ((h.0.0, omega arith), extended-below l start n top bound g.1 lt h.1)
  | inr p ↦ rw p ((h.0.0, omega arith), All-map _ _ (λ f q. (q.0, omega arith)) l h.1)
]

IsLayered-extended :
    (l : List PlAdjust) (start n : ℕ)
    → Grows n l
    → AllAbove start l
    → IsLayered l
    → IsLayered (extended l start n)
IsLayered-extended [] start n g a h = (tt, tt)
IsLayered-extended (e ∷ l) start n g a h = elim (Bool-cases (ltb start e.start)) [
  | inl p ↦
      let lt = ltb→lt start e.start p in
      let lower = extended-below l start n e.start e.adjust g.1 lt h.0 in
      rw p (
        All-map _ _ (λ f q. (q.0, omega arith)) (extended l start n) lower,
        IsLayered-extended l start n g.1 a.1 h.1,
      )
  | inr p ↦ rw p (All-map _ _ (λ f q. (q.0, omega arith)) l h.0, h.1)
]

Fits-extended :
    (limit addr : ℕ) (l : List PlAdjust) (start n : ℕ)
    → Grows n l
    → Fits limit (addr + n) l
    → Fits limit addr (extended l start n)
Fits-extended limit addr [] start n g f = omega arith
Fits-extended limit addr (e ∷ l) start n g f = elim (Bool-cases (ltb start e.start)) [
  | inl p ↦
      rw p (omega arith, (omega arith, (Fits-extended limit addr l start n g.1 (f.0, f.1.1)).1))
  | inr p ↦ rw p (omega arith, (omega arith, All-map _ _ (λ e q. omega arith) l f.1.1))
]

moved-room :
    (limit addr n : ℕ) (l : List PlAdjust) → Fits limit (addr + n) l → moved l addr + n < limit
moved-room limit addr n [] f = f.0
moved-room limit addr n (e ∷ l) f = ground (arith, moved-room limit addr n l (f.0, f.1.1))

shifted :
    (d : Dso) (old n : ℕ)
    → IsLayered d.adjust
    → Grows n d.adjust
    → AllAbove old d.adjust
    → (addr : ℕ) → Fits (class_limit d.elf64) (addr + n) d.adjust
    → moved (extended d.adjust old n) addr
      ≡ addr_adjust (moved d.adjust addr) (moved d.adjust old) n
unfolding addr_adjust
shifted d old n lay gr above addr room = ground (
  arith,
  moved-extended d.adjust old n addr gr above,
  moved-lt d.adjust addr old lay,
  moved-lt d.adjust old addr lay,
  moved-room (class_limit d.elf64) addr n d.adjust room,
  class_limit-le d.elf64,
)

-- `n` was added to the new addresses from `start` on: the list that is recorded says so.
pub record Recorded (d : Dso) (start n addr : ℕ) : Type 0 where
  pub after : Dso
  pub records : record_adjust d start n ≡ some after
  pub layered : IsLayered after.adjust
  pub moves : adjust_old_to_new after addr ≡ some (addr_adjust (moved d.adjust addr) start n)

-- Let the list of adjustments be in order, its starts not wrap around when they are shifted, and
-- every shift leave room below 2 ^ 64 for `n` more. Let the new addresses from that of an old address
-- `old` on be shifted, which stays in its class after each shift, is not above any recorded start,
-- and has a new address other than 0: a shift from 0 on, of the whole object, is not recorded.
-- `adjust_dso` then records the shift: it keeps the list in order, and an old address that has room
-- for the shift is from then on taken to its new address before, shifted as `adjust_dso` shifts all
-- addresses from that start on.
pub record_adjust-Recorded :
    (d : Dso) (old n addr : ℕ)
    → IsLayered d.adjust
    → StartsFit (2 ^ 64) d.adjust
    → Grows n d.adjust
    → Fits (class_limit d.elf64) old d.adjust
    → AllAbove old d.adjust
    → 0 < moved d.adjust old
    → Fits (class_limit d.elf64) (addr + n) d.adjust
    → Recorded d (moved d.adjust old) n addr
unfolding record_adjust adjust_old_to_new
record_adjust-Recorded d old n addr lay sf gr fit above pos room = record {
  after = record d { adjust = extended d.adjust old n };
  records =
      simp
        (
          new_to_old-moved d.elf64 d.adjust old lay sf fit,
          insert_adjust-extended d.adjust old n above,
        )
        (ground arith);
  layered = IsLayered-extended d.adjust old n gr above lay;
  moves =
      old_to_new-moved d.elf64 (extended d.adjust old n) addr
        (Fits-extended (class_limit d.elf64) addr d.adjust old n gr room)
      ∙ ap some (shifted d old n lay gr above addr room);
}
