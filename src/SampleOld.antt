-- ===== src/SampleOld.antt =====
-- The samples of sample_old, on an older interface of the library: a channel to the host in place of
-- the offloader, and a friend core whose first GB of addresses lies at 0x80000000.
pub mod Machine
pub mod Common
pub mod Host
pub mod Tables
pub mod Apps
pub mod Intro
mod Tests
