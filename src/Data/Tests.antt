-- ===== src/Data/Tests.antt =====
-- A word in the second section of an object.
use prelink_cross.Base.{ℕ, ◌≡◌, refl, true, none, some, [], ◌∷◌, arith, replicate}
use prelink_cross.Bytes.{lsb, msb, w32, buf_write_ne}
use prelink_cross.Dso.{Dso, Shdr, addr_to_sec, holds_addr, find_sec}
use prelink_cross.Data.{read_u, write, get_data, place_in, find_block, change_at, change_from}
use prelink_cross.Data.{Place}
use prelink_cross.Data.Iterator.{
  Iterator, get_data_from_iterator, seek, skip_blocks, pointer_at, pointer_in, next_block,
}
use prelink_cross.Data.Iterator.Start.{get_data_from_iterator-get_data}
use prelink_cross.Data.ReadWrite.{read_u-write}

abbrev section_at : ℕ → Shdr
section_at addr = record {
  name = [];
  sh_type = 1;
  sh_flags = 3;
  sh_addr = addr;
  sh_offset = addr;
  sh_size = 8;
  sh_addralign = 4;
}

abbrev object : Dso
object = record {
  elf64 = true;
  e_data = msb;
  e_type = 3;
  e_machine = 62;
  e_entry = 0;
  phdr = [];
  shdr = section_at 0x1000 ∷ section_at 0x2000 ∷ [];
  scn = [] ∷ (record { d_off = 0; d_size = 8; bytes = true; d_buf = replicate 8 0 } ∷ []) ∷ [];
  lastscn = 0;
  base = 0x1000;
  end = 0x2008;
  adjust = [];
  dirty = [];
}

abbrev written : Dso
written = record object {
  scn =
      []
      ∷ (record {
        d_off = 0;
        d_size = 8;
        bytes = true;
        d_buf = 0 ∷ 0 ∷ 0 ∷ 0 ∷ 0x12 ∷ 0x34 ∷ 0x56 ∷ 0x78 ∷ [];
      }
          ∷ [])
      ∷ [];
  lastscn = 1;
  dirty = 1 ∷ [];
}

-- There is no section at the address.
read_nowhere : read_u lsb msb w32 0x3000 object ≡ some (0, object)
unfolding read_u get_data addr_to_sec holds_addr find_sec
read_nowhere = refl

-- The word goes over the end of the block.
write_past_end : write lsb msb w32 0x2006 1 object ≡ none
unfolding write get_data addr_to_sec holds_addr find_sec place_in find_block change_at change_from
    buf_write_ne
write_past_end = refl

read_u-write_example :
    (read_u lsb msb w32 0x2004 written ≡ some (0x12345678, written))
    × (written.shdr ≡ object.shdr)
    × ((n : ℕ) × ((addr_to_sec object 0x2004).0 ≡ some n)
        × (written.lastscn ≡ n)
        × (written.dirty ≡ n ∷ object.dirty))
unfolding write get_data addr_to_sec holds_addr find_sec place_in find_block change_at change_from
    buf_write_ne
read_u-write_example = read_u-write lsb msb w32 object 0x2004 0x12345678 written (omega arith) refl

-- The second half of the second section.
abbrev here : Place
here = record { sec = 1; block = 0; off = 4; bytes = true }

abbrev stands : Iterator
stands = record { data_block = some 0; addr = 0x2008; sec = some 1; sec_offset = 8 }

get_data_from_iterator-get_data_example :
    (get_data object 0x2004 ≡ (some here, record object { lastscn = 1 })) × (stands.addr ≡ 0x2008)
unfolding get_data_from_iterator seek skip_blocks pointer_at pointer_in next_block addr_to_sec
    holds_addr find_sec
get_data_from_iterator-get_data_example =
    get_data_from_iterator-get_data object (record object { lastscn = 1 }) 0x2004 4 1
      (section_at 0x2000) here stands (record object { lastscn = 1 }) refl refl (omega arith)
      (omega arith) refl

-- The section ends there.
iterator_at_end : (get_data_from_iterator stands 4 (record object { lastscn = 1 })).0 ≡ none
unfolding get_data_from_iterator seek skip_blocks pointer_at pointer_in next_block addr_to_sec
    holds_addr find_sec
iterator_at_end = refl
