-- ===== src/Layout/Pairs.antt =====
-- Lists in which every entry is related to every later one.
use prelink_cross.Base.{◌≡◌, refl, ap, ◌∙◌, List, [], ◌∷◌, ◌++◌, All}
use prelink_cross.Layout.{Entry, unwind, rewind}

abbrev pub Pairs : (Entry → Entry → Type 0) → List Entry → Type 0
Pairs R [] = Unit {0}
Pairs R (e ∷ l) = All (R e) l × Pairs R l

pub All-append_left : (P : Entry → Type 0) (a b : List Entry) → All P (a ++ b) → All P a
All-append_left P [] b h = tt
All-append_left P (e ∷ a) b h = (h.0, All-append_left P a b h.1)

pub All-append_right : (P : Entry → Type 0) (a b : List Entry) → All P (a ++ b) → All P b
All-append_right P [] b h = h
All-append_right P (e ∷ a) b h = All-append_right P a b h.1

pub All-insert :
    (P : Entry → Type 0) (a b : List Entry) (x : Entry) → P x → All P (a ++ b) → All P (a ++ x ∷ b)
All-insert P [] b x px h = (px, h)
All-insert P (e ∷ a) b x px h = (h.0, All-insert P a b x px h.1)

pub All-append : (P : Entry → Type 0) (a b : List Entry) → All P a → All P b → All P (a ++ b)
All-append P [] b h k = k
All-append P (e ∷ a) b h k = (h.0, All-append P a b h.1 k)

module _ (R : Entry → Entry → Type 0) where
  pub Pairs-insert :
      (a b : List Entry) (x : Entry)
      → Pairs R (a ++ b)
      → All (λ e. R e x) a
      → All (R x) b
      → Pairs R (a ++ x ∷ b)
  Pairs-insert [] b x h before after = (after, h)
  Pairs-insert (e ∷ a) b x h before after =
      (All-insert (R e) a b x before.0 h.0, Pairs-insert a b x h.1 before.1 after)

  pub Pairs-append_right : (a b : List Entry) → Pairs R (a ++ b) → Pairs R b
  Pairs-append_right [] b h = h
  Pairs-append_right (e ∷ a) b h = Pairs-append_right a b h.1

  -- What stands before an entry is related to it.
  pub Pairs-before : (a b : List Entry) (x : Entry) → Pairs R (a ++ x ∷ b) → All (λ e. R e x) a
  Pairs-before [] b x h = tt
  Pairs-before (e ∷ a) b x h = ((All-append_right (R e) a (x ∷ b) h.0).0, Pairs-before a b x h.1)

pub append_assoc : (a : List Entry) (e : Entry) (n : List Entry) → a ++ e ∷ n ≡ (a ++ e ∷ []) ++ n
append_assoc [] e n = refl
append_assoc (x ∷ a) e n = ap (λ l. x ∷ l) (append_assoc a e n)

-- Unwinding puts a fixed list in front.
abbrev pub Prefix : List Entry → Type 0
Prefix before = (a : List Entry) × ((n : List Entry) → unwind before n ≡ a ++ n)

pub unwind-Prefix : (before : List Entry) → Prefix before
unfolding unwind
unwind-Prefix [] = ([], λ n. refl)
unwind-Prefix (e ∷ before) =
    let p = unwind-Prefix before in (p.0 ++ e ∷ [], λ n. p.1 (e ∷ n) ∙ append_assoc p.0 e n)

pub unwind-rewind :
    (after before : List Entry) → unwind (rewind after before) [] ≡ unwind before after
unfolding unwind rewind
unwind-rewind [] before = refl
unwind-rewind (e ∷ after) before = unwind-rewind after (e ∷ before)
