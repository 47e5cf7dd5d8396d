-- ===== src/Kernel/Tests.antt =====
-- Runs of the kernel's parts at concrete inputs, and their theorems there.
mod Directories
pub mod Drivers
mod FileReads
mod FreePages
mod Keys
mod Messages
mod Regions
mod Threads
