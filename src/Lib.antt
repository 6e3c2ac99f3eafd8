-- ===== src/Lib.antt =====
-- prelink-cross: the programs that relocate shared libraries before they are loaded.
--
-- prelink gives every library an address of its own (src/layout.c), moves the library there
-- (`adjust_dso` of src/dso.c, with one file src/arch-*.c for each architecture), stores the words
-- that the dynamic linker would store (the `prelink_rela` functions), and records for a program the
-- relocations whose symbols resolve otherwise in that program (the `prelink_conflict_rela`
-- functions). All of them read and write words at addresses of an opened object (src/data.c),
-- through the section that holds the address (`addr_to_sec` of src/dso.c).
--
-- Base holds what the other modules share: Base/Tests the Boolean tests, Base/Lists the lists,
-- Base/Word the unsigned integers of C, whose operations are written with their wrap-around, and
-- Base/Bits the bitwise operations.
--
-- Bytes models the functions of src/data.c on buffers. A pointer is the list of the bytes from it to
-- the end of its buffer, and an access past that end is `none`. Dso models src/dso.c and the `DSO` of
-- src/prelink.h: section and program headers, `addr_to_sec` with its cache `lastscn`, the list of
-- adjustments, and the parts of `adjust_dso` that change headers and that list. Moves models the
-- `section_move` of src/dso.c, with the lengths of its tables in place of counts. Data models the
-- functions of src/data.c on objects, as functions on the state `Dso` that can be undefined. Reloc
-- holds the relocations, and the conflicts of src/prelink.h. RelocInfo models src/reloc-info.c, and Crc
-- models src/crc32.c and src/makecrc.c. X86_64 models src/arch-x86_64.c: its
-- `switch`es are functions of the type of a relocation, `type_of` of its number. Layout models
-- src/layout.c: a pointer into the list of libraries is a pair of lists, the entries before it and
-- those from it on.
--
-- ConflictTable models how src/get.c records the conflicts that the dynamic linker reports for a
-- library, in one chain or in 251, and how `prelink_conflict` of src/conflict.c finds them: its
-- result is what the functions of I386 and X86_64 on conflicts take. I386 models src/arch-i386.c, on
-- the parts of X86_64 that the two files share. Dwarf2 models the debugging information of
-- src/dwarf2.c: the LEB128 reader, `read_abbrev`, the walk over an expression
-- (`adjust_location_list`), over the lists of ranges and locations, and over .debug_aranges and the
-- programs of .debug_line.
--
-- RelocSections models `find_reloc_sections` of src/reloc.c, and RelocSections/Update the other
-- functions of that file, on the relocations and on the entries that libelf yields.
-- `need_rel_to_rela` of the architecture is the parameter `need`, and the values of the dynamic
-- section are the record `Dynamic`.
--
-- Ppc models src/arch-ppc.c: Ppc/Prelink, Ppc/Conflicts, Ppc/Adjust and Ppc/Undo its functions on
-- relocations and on the GOT, with the fields of instructions in Ppc/Words, and Ppc/Plt the code
-- that it writes into the PLT. Ppc/Machine is no model of prelink's code: it defines the instructions
-- in that code as the architecture does, for what Ppc/Reaches says of them. `got` says whether the
-- object has DT_PPC_GOT.
--
-- Space models src/space.c, and `adjust_nonalloc` of src/dso.c, which it calls: Space and its
-- children Gap, Extend, LowerBase and NewSegment the five ways of `find_readonly_space` to make room
-- for a section, Space/Find their order. The counts of the headers are the lengths of the lists, and `spare`
-- is the memory behind the section headers, which the source reads when no section follows.
--
-- What libelf keeps is modelled by the data that it yields: a section is the list of the blocks that
-- `elf_getdata` gives, and flagging a section is an entry of `dirty`. The byte order of the machine
-- that runs prelink is the parameter `host`, and what resolves a symbol is the parameter `resolve`.
-- A failing `assert` and an `abort` are results of their own. Loops end with their lists. Only the
-- walks of Dwarf2 take fuel, as much as there are bytes before their end: each round takes one byte
-- or more.
--
-- Not modelled: files and everything that libelf does with them, the other
-- architectures, the address ranges that src/arch-i386.c and src/arch-ppc.c lay libraries out in, the rest
-- of src/dwarf2.c (attributes and frames), the part of `find_readonly_space` that moves sections away
-- from a table of program headers that has to grow, the search for dependencies and the cache
-- of src/gather.c, src/get.c and src/cache.c, and the vendored src/hashtab.c, src/md5.c and
-- src/sha.c.
pub mod Base
pub mod Bytes
pub mod Dso
pub mod Moves
pub mod Data
pub mod Reloc
pub mod RelocInfo
pub mod X86_64
pub mod Layout
pub mod Crc
pub mod ConflictTable
pub mod Dwarf2
pub mod I386
pub mod Ppc
pub mod RelocSections
pub mod Space
