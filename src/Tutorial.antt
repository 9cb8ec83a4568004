-- ===== src/Tutorial.antt =====
-- tutorial/: programs of friend cores that set up page tables and interrupt handlers of their own.
pub mod Cpu
pub mod Idt
pub mod Faults
pub mod Paging
mod Tests
