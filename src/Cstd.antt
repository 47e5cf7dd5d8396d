-- ===== src/Cstd.antt =====
-- The C library of user programs, `lib/cstd/src`.
pub mod Format
pub mod Str
pub mod Stream
mod Tests
pub mod Digits
pub mod Ctype
pub mod Malloc
pub mod Random
pub mod Number
