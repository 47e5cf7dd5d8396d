-- ===== src/Prelude/Int.antt =====
-- C's `int` results, as far as the program's values need them.
use Prim.Native.Nat.{ℕ}

-- `negsuc n` is -(n + 1).
pub data ℤ : Type 0 where
  pos : ℕ → ℤ
  negsuc : ℕ → ℤ
