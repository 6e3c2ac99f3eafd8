-- ===== src/Space/Loadable.antt =====
-- The new PT_LOAD segment of src/space.c.
use prelink_cross.Base.{
  ℕ, ◌+◌, ◌-◌, ◌%◌, ◌^◌, ◌<◌, ◌≤◌, ◌≡◌, refl, ap, sym, ◌∙◌, bit_and, add64, sub64, arith,
}
use prelink_cross.Base.Bits.{bit_and_low}
use prelink_cross.Dso.{Shdr, Phdr}
use prelink_cross.Space.{round_up}
use prelink_cross.Space.Align.{round_up-parts}
use prelink_cross.Space.NewSegment.{new_load}
use native.Mathlib.Nat.{one-le-pow, mod-lt, mod-add-mod, mod-mod}

-- Segment `q` can be loaded behind `p`: the system maps whole pages, so that the address and the
-- offset have to agree below the alignment, and neither may lie within `p`.
abbrev pub IsLoadableBehind : Phdr → Phdr → Type 0
IsLoadableBehind p q =
    (q.p_vaddr % q.p_align ≡ q.p_offset % q.p_align)
    × (p.p_vaddr + p.p_memsz ≤ q.p_vaddr)
    × (p.p_offset + p.p_filesz ≤ q.p_offset)
    × (q.p_filesz ≡ q.p_memsz)

-- Let the alignments of the section and of the segment before it be powers of two, and addresses and
-- offsets stay below 2 ^ 64. Then the new segment has the size of the section, lies behind the
-- segment before it in memory and in the file, its address and offset agree modulo the alignment,
-- and its offset is aligned for the section.
pub new_load-IsLoadableBehind :
    (add : Shdr) (p : Phdr) (j k : ℕ)
    → j ≤ 63
    → k ≤ 62
    → add.sh_addralign ≡ 2 ^ j
    → p.p_align ≡ 2 ^ k
    → p.p_offset + p.p_filesz + 2 ^ j ≤ 2 ^ 64
    → p.p_vaddr + p.p_memsz + 2 ^ k + 2 ^ k ≤ 2 ^ 64
    → IsLoadableBehind p (new_load add p)
      × ((new_load add p).p_offset % 2 ^ j ≡ 0)
      × ((new_load add p).p_memsz ≡ add.sh_size)
unfolding new_load
new_load-IsLoadableBehind add p j k hj hk al_s al_p room_o room_v =
    let pos : 0 < 2 ^ k = one-le-pow k 2 (omega arith) in
    let pos_j : 0 < 2 ^ j = one-le-pow j 2 (omega arith) in
    let end_o : add64 p.p_offset p.p_filesz ≡ p.p_offset + p.p_filesz = omega arith in
    let end_v : add64 p.p_vaddr p.p_memsz ≡ p.p_vaddr + p.p_memsz = omega arith in
    let file = round_up-parts j (add64 p.p_offset p.p_filesz) hj (omega arith) in
    let mem = round_up-parts k (add64 p.p_vaddr p.p_memsz) (omega arith) (omega arith) in
    let offset = round_up (add64 p.p_offset p.p_filesz) (2 ^ j) in
    let base = round_up (add64 p.p_vaddr p.p_memsz) (2 ^ k) in
    let mask : sub64 (2 ^ k) 1 ≡ 2 ^ k - 1 = omega arith in
    let low : bit_and offset (sub64 (2 ^ k) 1) ≡ offset % 2 ^ k =
      ap (λ t. bit_and offset t) mask ∙ bit_and_low k offset in
    let lt = mod-lt offset pos in
    let vaddr : add64 base (bit_and offset (sub64 (2 ^ k) 1)) ≡ base + offset % 2 ^ k =
      omega arith in
    let zero_left : 0 + offset % 2 ^ k ≡ offset % 2 ^ k = omega arith in
    let agree : (base + offset % 2 ^ k) % 2 ^ k ≡ offset % 2 ^ k =
      sym (mod-add-mod base (2 ^ k) (offset % 2 ^ k))
      ∙ ap (λ (t : ℕ). (t + offset % 2 ^ k) % 2 ^ k) mem.0
      ∙ ap (λ (t : ℕ). t % 2 ^ k) zero_left
      ∙ mod-mod offset (2 ^ k) in
    simp (al_s, al_p)
      (
        (
          ap (λ (t : ℕ). t % 2 ^ k) vaddr ∙ agree,
          omega (arith, vaddr, mem.1),
          omega (arith, file.1),
          refl,
        ),
        file.0,
        refl,
      )
