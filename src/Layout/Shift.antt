-- ===== src/Layout/Shift.antt =====
-- The moves of libraries above the region and back.
use prelink_cross.Base.{ℕ, ◌^◌, ◌<◌, ◌≡◌, ap, ◌⊎◌, inl, inr, add64, sub64, arith}
use prelink_cross.Layout.{Entry, Region, region_length, move_up, move_down, move_home}

back64 : (x n : ℕ) → x < 2 ^ 64 → n < 2 ^ 64 → sub64 (add64 x n) n ≡ x
back64 x n lx ln = omega arith

home64 : (x n b : ℕ) → sub64 (add64 x n) (sub64 b b) ≡ add64 x n
home64 x n b = omega arith

abbrev Shifted : Region → Entry → Type 0
Shifted r e =
    (move_down r (move_up r e) ≡ e)
    × (move_home r (move_up r e) ≡ record e { layend = add64 e.layend (region_length r) })

module _ (r : Region) (e : Entry) (lb : e.base < 2 ^ 64) (le : e.end < 2 ^ 64)
    (ll : e.layend < 2 ^ 64) where
  abbrev n : ℕ
  n = region_length r

  shifted : (k : ℕ) → (k ≡ 1) ⊎ (k ≡ 2) → Shifted r (record e { done = k })
  unfolding move_down move_up move_home
  shifted k (inl h) = rw h (
      rw (back64 e.base n lb (omega arith), back64 e.end n le (omega arith))
        (
          ap (λ t. record e { layend = t; done = 1 }) (back64 e.layend n ll (omega arith)),
          ap (λ t. record e { layend = t; done = 1 }) (home64 e.layend n r.mmap_base),
        ))
  shifted k (inr h) = rw h (
      rw (back64 e.base n lb (omega arith), back64 e.end n le (omega arith))
        (
          ap (λ t. record e { layend = t; done = 2 }) (back64 e.layend n ll (omega arith)),
          ap (λ t. record e { layend = t; done = 2 }) (home64 e.layend n r.mmap_base),
        ))

-- Moving a library up and down again changes nothing. Moving it up and home again, as the last loop
-- does, leaves its `layend` where the move up put it. Its `done` is 1 or 2, as that of every library
-- of the list, and its addresses are 64-bit numbers.
pub move_home-move_up :
    (r : Region) (e : Entry)
    → (e.done ≡ 1) ⊎ (e.done ≡ 2)
    → e.base < 2 ^ 64
    → e.end < 2 ^ 64
    → e.layend < 2 ^ 64
    → (move_down r (move_up r e) ≡ e)
      × (move_home r (move_up r e) ≡ record e { layend = add64 e.layend (region_length r) })
move_home-move_up r e d lb le ll = shifted r e lb le ll e.done d
