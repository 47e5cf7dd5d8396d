-- ===== src/Kernel.antt =====
-- The kernel, `kernel/src`.
pub mod Device
pub mod Fault
pub mod Files
pub mod Dirs
pub mod Interrupt
pub mod Keyboard
pub mod Mqueue
pub mod PageTable
pub mod PathParse
pub mod Pages
pub mod Region
pub mod Scheduler
pub mod Uspawn
mod Tests
