-- ===== src/Dso/Adjust.antt =====
-- The list of adjustments: `adjust_old_to_new`, `adjust_new_to_old`, and how `adjust_dso` extends
-- the list.
use prelink_cross.Base.{
  ℕ, ◌+◌, ◌^◌, ◌≤◌, ◌<◌, ◌≡◌, refl, Bool, true, false, some, List, [], ◌∷◌, arith, leb,
  if◌then◌else◌, All, All-map,
}
use prelink_cross.Dso.{
  Dso, PlAdjust, assert_class, old_to_new, new_to_old, adjust_old_to_new, adjust_new_to_old,
}

-- What the list means: the greatest start that is not above the address decides its shift.
abbrev pub moved : List PlAdjust → ℕ → ℕ
moved [] addr = addr
moved (e ∷ l) addr = if leb e.start addr then addr + e.adjust else moved l addr

-- The addresses of a class are below this.
abbrev pub class_limit : Bool → ℕ
class_limit elf64 = if elf64 then 2 ^ 64 else 2 ^ 32

-- From the highest start down: starts fall, and a higher start is shifted at least as far.
abbrev pub IsLayered : List PlAdjust → Type 0
IsLayered [] = Unit {0}
IsLayered (e ∷ l) =
    All (λ (f : PlAdjust). (f.start < e.start) × (f.adjust ≤ e.adjust)) l × IsLayered l

-- A shift by an entry of the list does not take the address out of its class.
abbrev pub Fits : ℕ → ℕ → List PlAdjust → Type 0
Fits limit addr l = (addr < limit) × All (λ (e : PlAdjust). addr + e.adjust < limit) l

-- The starts fit too.
abbrev pub StartsFit : ℕ → List PlAdjust → Type 0
StartsFit limit l = All (λ (e : PlAdjust). e.start + e.adjust < limit) l

assert_class-lt :
    (elf64 : Bool) (addr : ℕ) → addr < class_limit elf64 → assert_class elf64 addr ≡ some addr
assert_class-lt true addr h = refl
assert_class-lt false addr h = ground arith

pub class_limit-le : (elf64 : Bool) → class_limit elf64 ≤ 2 ^ 64
class_limit-le true = omega arith
class_limit-le false = omega arith

pub old_to_new-moved :
    (elf64 : Bool) (l : List PlAdjust) (addr : ℕ)
    → Fits (class_limit elf64) addr l
    → old_to_new elf64 l addr ≡ some (moved l addr)
unfolding old_to_new
old_to_new-moved elf64 [] addr h = refl
old_to_new-moved elf64 (e ∷ l) addr (h, g) = ground (
  arith,
  class_limit-le elf64,
  assert_class-lt elf64 (addr + e.adjust),
  old_to_new-moved elf64 l addr (h, g.1),
)

moved-le :
    (bound : ℕ) (l : List PlAdjust) (addr : ℕ)
    → All (λ (e : PlAdjust). e.adjust ≤ bound) l
    → moved l addr ≤ addr + bound
moved-le bound [] addr h = omega arith
moved-le bound (e ∷ l) addr h = ground (arith, moved-le bound l addr h.1)

lower_shifts :
    (e : PlAdjust) (l : List PlAdjust)
    → All (λ (f : PlAdjust). (f.start < e.start) × (f.adjust ≤ e.adjust)) l
    → All (λ (f : PlAdjust). f.adjust ≤ e.adjust) l
lower_shifts e l h = All-map _ _ (λ f p. p.1) l h

-- Different old addresses have different new ones, in the same order.
pub moved-lt : (l : List PlAdjust) (a b : ℕ) → IsLayered l → a < b → moved l a < moved l b
moved-lt [] a b h lt = lt
moved-lt (e ∷ l) a b h lt =
    ground (arith, moved-lt l a b h.1 lt, moved-le e.adjust l a (lower_shifts e l h.0))

pub new_to_old-moved :
    (elf64 : Bool) (l : List PlAdjust) (addr : ℕ)
    → IsLayered l
    → StartsFit (2 ^ 64) l
    → Fits (class_limit elf64) addr l
    → new_to_old elf64 l (moved l addr) ≡ some addr
unfolding new_to_old
new_to_old-moved elf64 [] addr h s f = refl
new_to_old-moved elf64 (e ∷ l) addr h s f = ground (
  arith,
  class_limit-le elf64,
  assert_class-lt elf64 addr,
  new_to_old-moved elf64 l addr h.1 s.1 (f.0, f.1.1),
  moved-le e.adjust l addr (lower_shifts e l h.0),
)

-- Let the list of adjustments be in order: the starts fall, the shifts of the later entries are at
-- most those of the earlier ones, and no start wraps around when it is shifted. An old address that
-- stays in its class after each shift then has a new address, from which the old one comes back.
pub new_to_old-old_to_new :
    (d : Dso) (addr : ℕ)
    → IsLayered d.adjust
    → StartsFit (2 ^ 64) d.adjust
    → Fits (class_limit d.elf64) addr d.adjust
    → (new : ℕ) × (adjust_old_to_new d addr ≡ some new) × (adjust_new_to_old d new ≡ some addr)
unfolding adjust_old_to_new adjust_new_to_old
new_to_old-old_to_new d addr h s f = (
  moved d.adjust addr,
  old_to_new-moved d.elf64 d.adjust addr f,
  new_to_old-moved d.elf64 d.adjust addr h s f,
)
