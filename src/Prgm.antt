-- ===== src/Prgm.antt =====
-- The user programs, `prgm`.
pub mod Keys
pub mod Number
pub mod Screen
mod Tests
