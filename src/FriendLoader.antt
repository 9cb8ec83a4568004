-- ===== src/FriendLoader.antt =====
-- FriendLoader/: the kernel module, which maps the memory of the friend cores into the hakase
-- process and starts and stops the cores.
pub mod Apic
pub mod Hotplug
pub mod Mmap
pub mod Kernel
pub mod CharDevice
pub mod CpuDevice
pub mod Module
mod Tests
