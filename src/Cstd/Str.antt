-- ===== src/Cstd/Str.antt =====
-- `lib/cstd/src/string.c`: the string functions, over byte memory. A loop takes fuel, and `none`
-- says that the fuel ran out.
use frosk_current.Prelude.{
  ℕ, zero, suc, ◌+◌, ◌%◌, Bool, true, false, Option, none, some, ◌==◌, ltb, if◌then◌else◌, ◌&&◌,
  not,
}
use mathlib.Core.Option
pub mod Copy
pub mod Dup
pub mod Compare
pub mod Order
use frosk_current.Prelude.Int.{ℤ, pos, negsuc}
use frosk_current.Prelude.Memory.{Memory, poke}

-- `char` is signed: the order of its values is the order of these.
abbrev pub char_key : ℕ → ℕ
char_key c = (c + 128) % 256

-- `*a < *b`
abbrev pub char_lt : ℕ → ℕ → Bool
char_lt a b = ltb (char_key a) (char_key b)

-- The `int` of a comparison at the first difference: `((*a > *b) << 1) - 1`.
abbrev pub diff_sign : ℕ → ℕ → ℤ
diff_sign a b = if char_lt b a then pos 1 else negsuc 0

-- `*a < *b ? -1 : *a > *b`
abbrev pub end_sign : ℕ → ℕ → ℤ
end_sign a b = if char_lt a b then negsuc 0 else if char_lt b a then pos 1 else pos 0

strlen_loop : ℕ → Memory → ℕ → ℕ → Option ℕ
strlen_loop zero m a i = none
strlen_loop (suc f) m a i = elim (m (a + i) == 0) [
  | true ↦ some i
  | false ↦ strlen_loop f m a (i + 1)
]

pub strlen : ℕ → Memory → ℕ → Option ℕ
unfolding strlen_loop
strlen f m a = strlen_loop f m a 0

-- The first argument counts the rounds until `i < n` fails; `a[n]` is read, and decides nothing.
strnlen_loop : ℕ → Memory → ℕ → ℕ → ℕ
strnlen_loop zero m a i = i
strnlen_loop (suc k) m a i = elim (m (a + i) == 0) [ true ↦ i | false ↦ strnlen_loop k m a (i + 1) ]

pub strnlen : Memory → ℕ → ℕ → ℕ
unfolding strnlen_loop
strnlen m a n = strnlen_loop n m a 0

strcpy_loop : ℕ → Memory → ℕ → ℕ → Option Memory
strcpy_loop zero m d s = none
strcpy_loop (suc f) m d s = elim (m s == 0) [
  | true ↦ some (poke m d 0)
  | false ↦ strcpy_loop f (poke m d (m s)) (d + 1) (s + 1)
]

-- The memory after the call; the call returns `d`.
pub strcpy : ℕ → Memory → ℕ → ℕ → Option Memory
unfolding strcpy_loop
strcpy f m d s = strcpy_loop f m d s

strncpy_loop : ℕ → Memory → ℕ → ℕ → ℕ → Memory
strncpy_loop zero m d s i = m
strncpy_loop (suc k) m d s i = elim (m (s + i) == 0) [
  | true ↦ m
  | false ↦ strncpy_loop k (poke m (d + i) (m (s + i))) d s (i + 1)
]

-- No terminator is written, and no padding.
pub strncpy : Memory → ℕ → ℕ → ℕ → Memory
unfolding strncpy_loop
strncpy m d s max = strncpy_loop max m d s 0

strcmp_loop : ℕ → Memory → ℕ → ℕ → Option ℤ
strcmp_loop zero m a b = none
strcmp_loop (suc f) m a b = elim (not (m a == 0) && not (m b == 0)) [
  | true ↦ elim (m a == m b) [
    | true ↦ strcmp_loop f m (a + 1) (b + 1)
    | false ↦ some (diff_sign (m a) (m b))
  ]
  | false ↦ some (end_sign (m a) (m b))
]

unfoldable pub strcmp : ℕ → Memory → ℕ → ℕ → Option ℤ
unfolding strcmp_loop
strcmp f m a b = strcmp_loop f m a b

-- `if (*a == 0) break` tests the first character in every round.
strncmp_loop : ℕ → Memory → ℕ → ℕ → ℕ → ℤ
strncmp_loop zero m a b i = pos 0
strncmp_loop (suc k) m a b i = elim (m (a + i) == m (b + i)) [
  | true ↦ elim (m a == 0) [ true ↦ pos 0 | false ↦ strncmp_loop k m a b (i + 1) ]
  | false ↦ diff_sign (m (a + i)) (m (b + i))
]

unfoldable pub strncmp : Memory → ℕ → ℕ → ℕ → ℤ
unfolding strncmp_loop
strncmp m a b size = strncmp_loop size m a b 0

memcpy_loop : ℕ → Memory → ℕ → ℕ → ℕ → Memory
memcpy_loop zero m d s i = m
memcpy_loop (suc k) m d s i = memcpy_loop k (poke m (d + i) (m (s + i))) d s (i + 1)

-- The memory after the call; the call returns `d`.
pub memcpy : Memory → ℕ → ℕ → ℕ → Memory
unfolding memcpy_loop
memcpy m d s size = memcpy_loop size m d s 0

memset_loop : ℕ → Memory → ℕ → ℕ → ℕ → Memory
memset_loop zero m p v i = m
memset_loop (suc k) m p v i = memset_loop k (poke m (p + i) (v % 256)) p v (i + 1)

pub memset : Memory → ℕ → ℕ → ℕ → Memory
unfolding memset_loop
memset m p v num = memset_loop num m p v 0

memcmp_loop : ℕ → Memory → ℕ → ℕ → ℕ → ℤ
memcmp_loop zero m a b i = pos 0
memcmp_loop (suc k) m a b i = elim (m (a + i) == m (b + i)) [
  | true ↦ memcmp_loop k m a b (i + 1)
  | false ↦ diff_sign (m (a + i)) (m (b + i))
]

pub memcmp : Memory → ℕ → ℕ → ℕ → ℤ
unfolding memcmp_loop
memcmp m a b size = memcmp_loop size m a b 0

-- `dst` is what `malloc (strlen (src) + 1)` returned. The call returns it.
pub strdup : ℕ → Memory → (src dst : ℕ) → Option Memory
unfolding strlen
strdup f m src dst =
    Option.map (λ n. let len = n + 1 in poke (memcpy m dst src len) (dst + len) 0) (strlen f m src)

-- `dst` is what `malloc (strnlen (src, max) + 1)` returned.
pub strndup : Memory → (src max dst : ℕ) → Memory
strndup m src max dst = let len = strnlen m src max in poke (memcpy m dst src len) (dst + len) 0
