-- ===== src/Hakase.antt =====
-- hakase/: the library that the Linux process links, which loads the friend binary and starts the
-- friend cores.
pub mod PageTables
pub mod Startup
pub mod Setup
pub mod Elf
pub mod Interrupt
pub mod Trampoline
