-- ===== src/Hakase/Elf.antt =====
-- ElfLoader of hakase/elf_loader.h and hakase/elf_loader.cc, over the structures of
-- common/elfhead.h. The binary is a function from offsets to bytes: the code never compares an
-- offset with the length of the binary, so every offset has a byte.
pub mod Headers
pub mod Deploy
