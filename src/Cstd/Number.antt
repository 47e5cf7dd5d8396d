-- ===== src/Cstd/Number.antt =====
-- `utoa` and `itoa` of `lib/cstd/src/stdio.c`. A loop takes fuel, and `none` says that the fuel ran
-- out; the callers give what 64-bit values need.
pub mod Print
pub mod Frame
pub mod Text
use frosk_current.Prelude.{
  ℕ, zero, suc, ◌+◌, ◌-◌, ◌/◌, ◌%◌, ◌^◌, true, false, Option, none, some, ◌==◌, ltb, if◌then◌else◌,
}
use frosk_current.Prelude.Words.{mul64, sub64}
use frosk_current.Prelude.Memory.{Memory, poke}
use frosk_current.Cstd.Str.{char_lt}
use mathlib.Core.Option.{bind}

-- the first loop: `div` becomes the weight of the first digit
pub utoa_div : ℕ → (tmp div radix : ℕ) → Option ℕ
utoa_div zero tmp div radix = none
utoa_div (suc f) tmp div radix = elim (ltb 0 tmp) [
  | true ↦ utoa_div f (tmp / radix) (mul64 div radix) radix
  | false ↦ some div
]

-- the character of a digit, which is held in a `char`
pub digit_char : ℕ → ℕ → ℕ
digit_char d letter_a =
    let ch = d % 256 in if char_lt ch 10 then (ch + b'0') % 256 else (ch + letter_a - 10) % 256

-- the second loop, and the terminator
pub utoa_out : ℕ → Memory → (buf i val div radix letter_a : ℕ) → Option Memory
utoa_out zero m buf i val div radix letter_a = none
utoa_out (suc f) m buf i val div radix letter_a = elim (ltb 0 div) [
  | true ↦
      utoa_out f (poke m (buf + i) (digit_char (val / div) letter_a)) buf (i + 1) (val % div)
        (div / radix) radix letter_a
  | false ↦ some (poke m (buf + i) 0)
]

-- Bounds on the rounds of the two loops: a 64-bit value has at most 64 digits.
abbrev pub div_fuel : ℕ
div_fuel = 64

abbrev pub out_fuel : ℕ
out_fuel = 65

-- The memory after the call; the call returns `buf`. The zero is written by `strcpy (buf, "0")`.
pub utoa : Memory → (val buf radix letter_a : ℕ) → Option Memory
utoa m val buf radix letter_a =
    if val == 0
    then some (poke (poke m buf b'0') (buf + 1) 0)
    else bind (utoa_div div_fuel (val / radix) 1 radix)
        (λ div. utoa_out out_fuel m buf 0 val div radix letter_a)

-- `v` is the bit pattern of a `long`, negative from 2^63 on.
pub itoa : Memory → (v buf radix letter_a : ℕ) → Option Memory
itoa m v buf radix letter_a =
    if ltb v (2 ^ 63)
    then utoa m v buf radix letter_a
    else utoa (poke m buf b'-') (sub64 0 v) (buf + 1) radix letter_a
