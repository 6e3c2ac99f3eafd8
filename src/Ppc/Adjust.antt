-- ===== src/Ppc/Adjust.antt =====
-- ppc_adjust_dyn, ppc_adjust_rela and ppc_arch_pre_prelink: the words that the architecture has to
-- move when the addresses from `start` on move by `adjust`, and the second word of the GOT.
use prelink_cross.Base.{
  ℕ, zero, suc, ◌+◌, ◌-◌, ◌^◌, Bool, true, false, ◌&&◌, ◌||◌, not, Option, none, some, List, [],
  ◌∷◌, drop, ltb, leb, ◌==◌, if◌then◌else◌, get_elem?, add64, u32,
}
use prelink_cross.Bytes.{ByteOrder}
use prelink_cross.Dso.{Shdr}
use prelink_cross.Data.{M, ◌>>=◌, ◌>>◌, pure}
use prelink_cross.Reloc.{Rela, gelf_r_type}
use prelink_cross.X86_64.{same_name, got_name, plt_name}
use prelink_cross.X86_64.Adjust.{Dyn, dt_pltgot}
use prelink_cross.Ppc.{RelocType, relative, irelative, jmp_slot, type_of}
use prelink_cross.Ppc.Words.{read_ube32, write_be32, sword}

abbrev pub dt_ppc_got : ℕ
dt_ppc_got = 0x70000000

-- The first section of the name in a list.
unfoldable pub named : List ℕ → List Shdr → Option Shdr
named name [] = none
named name (s ∷ l) = if same_name s.name name then some s else named name l

-- The first section .got with 16 bytes or more.
unfoldable pub find_got : List Shdr → Option Shdr
find_got [] = none
find_got (s ∷ l) = if same_name s.name got_name && leb 16 s.sh_size then some s else find_got l

-- Where the header of the GOT is looked for after round `step`, or `none` for a `break`: the start
-- and the end of .got, and then 16 places around offset 32768.
unfoldable pub next_place : Shdr → ℕ → ℕ → Option ℕ
next_place s step addr =
    if step == 0
    then some (u32 (s.sh_addr + s.sh_size + (2 ^ 32 - 16)))
    else if step == 1
    then if leb (32768 - 32) s.sh_size then some (u32 (s.sh_addr + (32768 - 32 - 16))) else none
    else if ltb (add64 s.sh_addr s.sh_size) (u32 (addr + 20))
    then none
    else some (u32 (addr + 4))

-- The value of DT_PPC_GOT in the entries of .dynamic. The `assert` is that no DT_NULL comes before
-- it; with no entry at all `dyn` is not initialised in C.
unfoldable pub ppc_got : List Dyn → Option ℕ
ppc_got [] = none
ppc_got (dyn ∷ l) =
    if dyn.d_tag == 0 then none else if dyn.d_tag == dt_ppc_got then some dyn.d_ptr else ppc_got l

module _ (host : ByteOrder) where
  -- `dynamic` is the address of .dynamic.
  abbrev move_got1 : ℕ → ℕ → ℕ → ℕ → M Bool
  move_got1 dynamic addr start adjust = do
    word ← read_ube32 host addr
    if word == dynamic && leb start word
        then write_be32 host addr (add64 word adjust)
        else pure true

  abbrev move_glink : ℕ → ℕ → ℕ → M Bool
  move_glink addr start adjust = do
    word ← read_ube32 host addr
    if not (word == 0) && leb start word
        then write_be32 host addr (add64 word adjust)
        else pure true

  -- The four words of a header; the second one is returned.
  unfoldable pub header_at : ℕ → ℕ → ℕ → M (Option ℕ)
  header_at dynamic start addr = do
    code ← read_ube32 host addr
    if not (code == 0x4e800021) then pure none else do
      word ← read_ube32 host (u32 (addr + 4))
      if not (word == dynamic) || not (leb start word) then pure none else do
        third ← read_ube32 host (u32 (addr + 8))
        if not (third == 0) then pure none else do
          fourth ← read_ube32 host (u32 (addr + 12))
          pure (if fourth == 0 then some word else none)

  -- The rounds from `step` on, as many as are left of the 18.
  unfoldable pub find_header : Shdr → ℕ → ℕ → ℕ → ℕ → ℕ → ℕ → M (Unit {0})
  find_header s dynamic start adjust zero step addr = pure tt
  find_header s dynamic start adjust (suc left) step addr = do
    found ← header_at dynamic start addr
    elim found [
      | some word ↦ write_be32 host (u32 (addr + 4)) (add64 word adjust) >> pure tt
      | none ↦ elim (next_place s step addr) [
        | none ↦ pure tt
        | some addr' ↦ find_header s dynamic start adjust left (suc step) addr'
      ]
    ]

  -- `got` is `dynamic_info_is_set (dso, DT_PPC_GOT_BIT)`, and `n` is the number of .dynamic. It
  -- returns 1 with a `d_ptr` that it has moved.
  unfoldable pub adjust_dyn : Bool → ℕ → Dyn → ℕ → ℕ → M (Dyn × Bool)
  adjust_dyn got n dyn start adjust d = elim (get_elem? d.shdr n) [
    | none ↦ none
    | some s ↦
        if dyn.d_tag == dt_ppc_got
        then (move_got1 s.sh_addr dyn.d_ptr start adjust
              >> move_glink (add64 dyn.d_ptr 4) start adjust
              >> pure (
                  if leb start dyn.d_ptr
                  then (record dyn { d_ptr = add64 dyn.d_ptr adjust }, true)
                  else (dyn, false)))
            d
        else if dyn.d_tag == dt_pltgot && not got
        then elim (find_got (drop 1 d.shdr)) [
          | none ↦ pure (dyn, false) d
          | some g ↦
              (find_header g s.sh_addr start adjust 18 0 (u32 g.sh_addr) >> pure (dyn, false)) d
        ]
        else pure (dyn, false) d
  ]

  abbrev pub move_addend : Rela → ℕ → ℕ → Rela
  move_addend rela start adjust =
      if leb start (u32 rela.r_addend)
      then record rela { r_addend = add64 rela.r_addend (sword adjust) }
      else rela

  abbrev move_slot : Rela → ℕ → ℕ → M Rela
  move_slot rela start adjust = do
    word ← read_ube32 host rela.r_offset
    if leb start word
        then write_be32 host rela.r_offset (add64 word adjust) >> pure rela
        else pure rela

  unfoldable pub adjust_type : Bool → RelocType → Rela → ℕ → ℕ → M Rela
  adjust_type got relative rela start adjust = pure (move_addend rela start adjust)
  adjust_type got irelative rela start adjust = pure (move_addend rela start adjust)
  adjust_type got jmp_slot rela start adjust =
      if got then move_slot rela start adjust else pure rela
  adjust_type got _ rela start adjust = pure rela

  -- It returns 0 always.
  unfoldable pub adjust_rela : Bool → Rela → ℕ → ℕ → M Rela
  unfolding adjust_type
  adjust_rela got rela start adjust =
      adjust_type got (type_of (gelf_r_type rela.r_info)) rela start adjust

  -- `dyns` are the entries of .dynamic. It returns 0 always.
  unfoldable pub arch_pre_prelink : Bool → List Dyn → M (Unit {0})
  arch_pre_prelink got dyns = if not got then pure tt else elim (ppc_got dyns) [
    | none ↦ λ d. none
    | some ptr ↦ do
      glink ← read_ube32 host (add64 ptr 4)
      if not (glink == 0) then pure tt else λ d. elim (named plt_name (drop 1 d.shdr)) [
        | none ↦ pure tt d
        | some plt ↦
            (read_ube32 host plt.sh_addr >>= λ val. write_be32 host (add64 ptr 4) val >> pure tt) d
      ]
  ]
