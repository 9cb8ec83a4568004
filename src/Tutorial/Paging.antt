-- ===== src/Tutorial/Paging.antt =====
-- tutorial/paging: the programs on page tables. A program runs on one core; what it has the hakase
-- process print is a list, the last entry first, and what it has it read is a list of bytes.
pub mod Console
pub mod CopyOnWrite
pub mod Hierarchy
pub mod AddressSpace
pub mod Mapping
