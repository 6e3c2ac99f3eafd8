-- ===== src/Dwarf2/Keeps.antt =====
-- Writes into a section keep its size and the bytes before them, and so do walks in a row.
use prelink_cross.Base.{
  ℕ, zero, suc, ◌≤◌, ◌<◌, ◌≡◌, refl, ap, ◌∙◌, Bool, true, false, Option, none, some, List, [], ◌∷◌,
  arith, length, get_elem?,
}
use prelink_cross.Bytes.{ByteOrder, lsb, msb}
use prelink_cross.Data.{change_from}
use prelink_cross.Dwarf2.{
  Debug, Walk, ok, failed, undefined_, stuck, ◌then_◌, of_option, write_ptr, dwarf2_write_ptr,
  dwarf2_write_le32, dwarf2_write_le64, dwarf2_write_be32, dwarf2_write_be64,
}

-- The one section has the size of the other and its bytes before `ptr`.
abbrev pub Keeps : ℕ → List ℕ → List ℕ → Type 0
Keeps ptr buf buf' =
    (length buf' ≡ length buf) × ((i : ℕ) → i < ptr → get_elem? buf' i ≡ get_elem? buf i)

pub Keeps-self : (ptr : ℕ) (buf : List ℕ) → Keeps ptr buf buf
Keeps-self ptr buf = (refl, λ i h. refl)

pub Keeps-trans : (p q : ℕ) (a b c : List ℕ) → p ≤ q → Keeps p a b → Keeps q b c → Keeps p a c
Keeps-trans p q a b c h (m, f) (n, g) = (n ∙ m, λ i lt. g i (omega arith) ∙ f i lt)

-- What a walk leaves of the section if it returns 0; it does not run out of fuel.
abbrev pub Ends : ℕ → List ℕ → Walk (List ℕ) → Type 0
Ends ptr buf (ok buf') = Keeps ptr buf buf'
Ends ptr buf failed = Unit
Ends ptr buf undefined_ = Unit
Ends ptr buf stuck = ⊥

unfoldable pub IfKeeps : ℕ → List ℕ → Option (List ℕ) → Type 0
IfKeeps ptr buf none = Unit
IfKeeps ptr buf (some buf') = Keeps ptr buf buf'

-- A write of as many bytes as it replaces.
IfLength : ℕ → Option (List ℕ) → Type 0
IfLength n none = Unit
IfLength n (some buf) = length buf ≡ n

write_le32-length : (buf : List ℕ) (val : ℕ) → IfLength (length buf) (dwarf2_write_le32 buf val)
unfolding IfLength dwarf2_write_le32
write_le32-length (_ ∷ _ ∷ _ ∷ _ ∷ r) val = refl
write_le32-length _ val = tt

write_be32-length : (buf : List ℕ) (val : ℕ) → IfLength (length buf) (dwarf2_write_be32 buf val)
unfolding IfLength dwarf2_write_be32
write_be32-length (_ ∷ _ ∷ _ ∷ _ ∷ r) val = refl
write_be32-length _ val = tt

write_le64-length : (buf : List ℕ) (val : ℕ) → IfLength (length buf) (dwarf2_write_le64 buf val)
unfolding IfLength dwarf2_write_le64
write_le64-length (_ ∷ _ ∷ _ ∷ _ ∷ _ ∷ _ ∷ _ ∷ _ ∷ r) val = refl
write_le64-length _ val = tt

write_be64-length : (buf : List ℕ) (val : ℕ) → IfLength (length buf) (dwarf2_write_be64 buf val)
unfolding IfLength dwarf2_write_be64
write_be64-length (_ ∷ _ ∷ _ ∷ _ ∷ _ ∷ _ ∷ _ ∷ _ ∷ r) val = refl
write_be64-length _ val = tt

dwarf2_write_ptr-length :
    (wide : Bool) (o : ByteOrder) (buf : List ℕ) (val : ℕ)
    → IfLength (length buf) (dwarf2_write_ptr wide o buf val)
unfolding dwarf2_write_ptr
dwarf2_write_ptr-length false lsb = write_le32-length
dwarf2_write_ptr-length true lsb = write_le64-length
dwarf2_write_ptr-length false msb = write_be32-length
dwarf2_write_ptr-length true msb = write_be64-length

behind :
    (x : ℕ) (buf : List ℕ) (off : ℕ) (o : Option (List ℕ))
    → IfKeeps off buf o
    → IfKeeps (suc off) (x ∷ buf) (elim o [ none ↦ none | some buf' ↦ some (x ∷ buf') ])
unfolding IfKeeps
behind x buf off none h = tt
behind x buf off (some buf') (len, same) = (ap suc len, before)
  where
    before : (i : ℕ) → i < suc off → get_elem? (x ∷ buf') i ≡ get_elem? (x ∷ buf) i
    before zero lt = refl
    before (suc i) lt = same i (omega arith)

-- A change from an offset on.
change_from-IfKeeps :
    (buf : List ℕ) (off : ℕ) (f : List ℕ → Option (List ℕ))
    → ((b : List ℕ) → IfLength (length b) (f b))
    → IfKeeps off buf (change_from buf off f)
unfolding change_from IfKeeps IfLength
change_from-IfKeeps buf zero f h = at_zero (f buf) (h buf)
  where
    at_zero : (o : Option (List ℕ)) → IfLength (length buf) o → IfKeeps zero buf o
    at_zero none p = tt
    at_zero (some b) p = (p, λ i lt. absurd (omega arith))
change_from-IfKeeps [] (suc off) f h = tt
change_from-IfKeeps (x ∷ buf) (suc off) f h =
    behind x buf off (change_from buf off f) (change_from-IfKeeps buf off f h)

pub write_ptr-IfKeeps :
    (d : Debug) (buf : List ℕ) (ptr val : ℕ) → IfKeeps ptr buf (write_ptr d buf ptr val)
unfolding write_ptr
write_ptr-IfKeeps d buf ptr val =
    change_from-IfKeeps buf ptr _ (λ b. dwarf2_write_ptr-length d.wide d.dso.e_data b val)

-- A walk behind another one, both from `ptr` on or later.
pub Ends-then :
    (p q r : ℕ) (buf : List ℕ) (w : Walk (List ℕ)) (k : List ℕ → Walk (List ℕ))
    → p ≤ q
    → p ≤ r
    → Ends q buf w
    → ((buf' : List ℕ) → length buf' ≡ length buf → Ends r buf' (k buf'))
    → Ends p buf (w then_ k)
Ends-then p q r buf (ok b) k h g e f = over (k b) (f b e.0)
  where
    over : (w : Walk (List ℕ)) → Ends r b w → Ends p buf w
    over (ok c) e' = Keeps-trans p r buf b c g (e.0, λ i lt. e.1 i (omega arith)) e'
    over failed e' = tt
    over undefined_ e' = tt
    over stuck e' = e'
Ends-then p q r buf failed k h g e f = tt
Ends-then p q r buf undefined_ k h g e f = tt
Ends-then p q r buf stuck k h g e f = absurd e

pub Ends-of_option :
    (p : ℕ) (buf : List ℕ) (o : Option (List ℕ)) → IfKeeps p buf o → Ends p buf (of_option o)
unfolding IfKeeps
Ends-of_option p buf none h = tt
Ends-of_option p buf (some b) h = h
