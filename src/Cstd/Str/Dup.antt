-- ===== src/Cstd/Str/Dup.antt =====
-- `strdup`: what stands at the copy, and what it does to the byte behind it.
use frosk_current.Prelude.{ℕ, ◌+◌, ◌<◌, ◌≡◌, some, List, arith, length}
use frosk_current.Prelude.Memory.{Memory, poke, IsString}
use frosk_current.Cstd.Str.{memcpy, strdup}
use frosk_current.Cstd.Str.Copy.{Apart, strlen-IsString, memcpy_lem, IsString-frame, IsString-move}

-- `strdup` leaves a copy of the string in the `length xs + 1` bytes that it got, and it writes a
-- zero to the byte behind them, which it did not get.
pub strdup_overrun :
    (f : ℕ) (m : Memory) (src dst : ℕ) (xs : List ℕ)
    → Apart (length xs + 1) dst src
    → IsString m src xs
    → length xs < f
    → (m' : Memory) × (strdup f m src dst ≡ some m')
      × IsString m' dst xs
      × (m' (dst + (length xs + 1)) ≡ 0)
unfolding strdup
strdup_overrun f m src dst xs apart h lt =
    let n = length xs + 1 in
    let copied = memcpy m dst src n in
    (
      poke copied (dst + n) 0,
      rw (strlen-IsString f m src xs h lt),
      IsString-frame copied (poke copied (dst + n) 0) dst xs (λ q lo hi. ground arith)
          (IsString-move m copied src dst xs
            (λ i le. ground (arith, memcpy_lem m dst src n (dst + i) apart)) h),
      ground arith,
    )
