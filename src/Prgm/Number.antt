-- ===== src/Prgm/Number.antt =====
-- `number_to_string` of `prgm/start/src/fcurses.c`. `none` says that the fuel ran out.
pub mod Places
use frosk_current.Prelude.{
  ℕ, zero, suc, ◌+◌, ◌-◌, ◌/◌, ◌%◌, Bool, true, false, Option, none, some, ◌==◌, ltb, leb,
  if◌then◌else◌, ◌>>=◌,
}
use frosk_current.Prelude.Memory.{Memory, poke}

-- for (len = 0, v = value; v > 0; v /= radix) len++
pub count_digits : (fuel : ℕ) → (v radix len : ℕ) → Option ℕ
count_digits zero v radix len = none
count_digits (suc f) v radix len = elim (ltb 0 v) [
  | true ↦ count_digits f (v / radix) radix (len + 1)
  | false ↦ some len
]

-- digit >= 10 ? 'A' + digit - 10 : '0' + digit
abbrev pub char_of : ℕ → ℕ
char_of digit = if leb 10 digit then b'A' + digit - 10 else b'0' + digit

-- The loop that writes, from the last digit on; its first argument is `i + 1`.
pub put_digits : (places : ℕ) → Memory → (str value radix : ℕ) → Memory
put_digits zero m str value radix = m
put_digits (suc i) m str value radix = elim (value == 0) [
  | true ↦ m
  | false ↦
      put_digits i (poke m (str + i) (char_of (value % radix) % 256)) str (value / radix) radix
]

-- Memory, and the number that is returned.
pub number_to_string : (fuel : ℕ) → Memory → (value str max radix : ℕ) → Option (Memory × ℕ)
unfolding count_digits put_digits
number_to_string fuel m value str max radix =
    if value == 0
    then some (if ltb max 2 then (m, 2) else (poke (poke m str b'0') (str + 1) 0, 0))
    else (count_digits fuel value radix 0 >>= λ len. some (
        if leb max len
        then (m, len)
        else (poke (put_digits len m str value radix) (str + len) 0, 0)))
