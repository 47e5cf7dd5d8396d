-- ===== src/Cstd/Tests.antt =====
-- Runs of the C library on concrete memory, and its theorems at concrete inputs.
mod Formats
mod Lines
mod Heap
use frosk_current.Prelude.{
  ℕ, ◌+◌, ◌-◌, ◌^◌, ◌≡◌, ◌↔◌, ◌⊎◌, ◌<◌, inr, refl, some, List, [], ◌∷◌, arith,
}
use frosk_current.Prelude.Int.{pos, negsuc}
use frosk_current.Prelude.Memory.{Memory, poke, IsString, memory_of}
use frosk_current.Cstd.Str.{strlen, strcpy, strcmp, strncmp, memcpy, memcmp, strdup}
use frosk_current.Cstd.Str.Copy.{memcpy_lem, strcpy-memcpy, strlen-IsString}
use frosk_current.Cstd.Str.Dup.{strdup_overrun}
use frosk_current.Cstd.Str.Compare.{strncmp-memcmp, memcmp_zero_iff}
use frosk_current.Cstd.Str.Order.{strcmp_zero_iff, strcmp_flip, strcmp_trans}
use frosk_current.Cstd.Number.{utoa, itoa}
use frosk_current.Cstd.Number.Text.{IsPrinted, utoa-IsPrinted, itoa_negative}

-- "ab" at 0, "ac" at 3, "b" at 6, and "ab" at 8 with other bytes behind it
abbrev m : Memory
m = memory_of (97 ∷ 98 ∷ 0 ∷ 97 ∷ 99 ∷ 0 ∷ 98 ∷ 0 ∷ 97 ∷ 98 ∷ 0 ∷ 7 ∷ [])

abbrev ab : List ℕ
ab = 97 ∷ 98 ∷ []

abbrev ac : List ℕ
ac = 97 ∷ 99 ∷ []

abbrev b : List ℕ
b = 98 ∷ []

ab-IsString : IsString m 0 ab
ab-IsString = omega arith

ac-IsString : IsString m 3 ac
ac-IsString = omega arith

b-IsString : IsString m 6 b
b-IsString = omega arith

strncmp_runs_on : (strncmp m 0 8 2 ≡ pos 0) × (strncmp m 0 8 10 ≡ pos 1)
unfolding strncmp
strncmp_runs_on = (refl, refl)

strcpy_example :
    (strcpy 10 m 20 0 ≡ some (memcpy m 20 0 3))
    × IsString (memcpy m 20 0 3) 20 ab
    × ((q : ℕ) → (q < 20) ⊎ (22 < q) → memcpy m 20 0 3 q ≡ m q)
strcpy_example = strcpy-memcpy 10 m 20 0 ab (inr (omega arith)) ab-IsString (omega arith)

utoa_example : IsPrinted m 20 0x1ff 16 b'a' (utoa m 0x1ff 20 16 b'a')
utoa_example =
    utoa-IsPrinted m 0x1ff 20 16 b'a' (omega arith) (omega arith) (omega arith) (omega arith)
      (omega arith)

itoa_example :
    (after : Memory) × (itoa m (2 ^ 64 - 42) 20 10 b'a' ≡ some after)
    × (after 20 ≡ b'-')
    × IsPrinted (poke m 20 b'-') 21 42 10 b'a' (itoa m (2 ^ 64 - 42) 20 10 b'a')
itoa_example =
    itoa_negative m (2 ^ 64 - 42) 20 10 b'a' (omega arith) (omega arith) (omega arith) (omega arith)
      (omega arith) (omega arith)
