-- ===== src/Prelude/Memory.antt =====
-- Byte memory: what a `char *` points into. An address is a number, and no object wraps round the
-- end of the address space.
use Prim.Native.Nat.{ℕ, ◌+◌, ◌<◌}
use mathlib.Core.Path.{◌≡◌}
use mathlib.Core.List.{List, [], ◌∷◌}
use frosk_current.Prelude.Lists.{get_or}
use frosk_current.Prelude.Tests.{◌==◌, if◌then◌else◌}

abbrev pub Memory : Type 0
Memory = ℕ → ℕ

-- `*p = v`
abbrev pub poke : Memory → ℕ → ℕ → Memory
poke m p v q = if q == p then v else m q

-- From address `a` on stand the characters `s`, bytes other than zero, and a terminator.
abbrev pub IsString : Memory → ℕ → List ℕ → Type 0
IsString m a [] = m a ≡ 0
IsString m a (c ∷ s) = (m a ≡ c) × (0 < c) × (c < 256) × IsString m (a + 1) s

-- Memory that begins with the given bytes, and is zero behind them: for tests.
abbrev pub memory_of : List ℕ → Memory
memory_of bytes q = get_or bytes q 0
