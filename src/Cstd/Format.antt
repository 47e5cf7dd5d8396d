-- ===== src/Cstd/Format.antt =====
-- `vsnprintf` of `lib/cstd/src/stdio.c`, with `get_size_class`, `format_int` and `format_uint`. The arguments
-- are 64-bit words by number, and `n` is the number of the next one. The arrays `numbuf` of the functions are at
-- one address. `ftoa` and the argument of `%g` are parameters, as floating point numbers are. `none` says that the
-- fuel ran out.
pub mod Bounded
pub mod Ends
pub mod Frame
pub mod Text
pub mod Written
use frosk_current.Prelude.{
  ℕ, zero, suc, ◌+◌, ◌-◌, ◌*◌, ◌%◌, ◌^◌, Bool, true, false, Option, none, some, List, [], ◌∷◌, ◌==◌,
  ltb, leb, ◌||◌, not, if◌then◌else◌, ◌>>=◌,
}
use frosk_current.Prelude.Words.{add64, sub64}
use frosk_current.Prelude.Memory.{Memory, poke}
use frosk_current.Cstd.Str.{strlen, strncpy}
use frosk_current.Cstd.Number.{utoa, itoa}

-- `enum SIZE_CLASS`
pub data SizeClass : Type 0 where
  undef : SizeClass
  half : SizeClass
  half_half : SizeClass
  long : SizeClass
  long_long : SizeClass
  long_dbl : SizeClass
  max : SizeClass
  size : SizeClass
  ptrdiff : SizeClass

-- `j` is the place of the percent sign; the result has the place of the conversion.
unfoldable pub get_size_class : Memory → (fmt j : ℕ) → SizeClass × ℕ
get_size_class m fmt j =
    let c = m (fmt + (j + 1)) in
    let d = m (fmt + (j + 2)) in
    if c == b'h'
    then (if d == b'h' then (half_half, j + 3) else (half, j + 2))
    else if c == b'l'
    then (if d == b'l' then (long_long, j + 3) else (long, j + 2))
    else if c == b'j'
    then (max, j + 2)
    else if c == b'z'
    then (size, j + 2)
    else if c == b't'
    then (ptrdiff, j + 2)
    else if c == b'L'
    then (long_dbl, j + 2)
    else (undef, j + 1)

-- a 32-bit argument as a `long long`
abbrev pub sign_extend : ℕ → ℕ
sign_extend a = let x = a % 2 ^ 32 in if ltb x (2 ^ 31) then x else x + (2 ^ 64 - 2 ^ 32)

abbrev pub int_argument : SizeClass → ℕ → ℕ
int_argument long a = a
int_argument long_long a = a
int_argument max a = a
int_argument size a = a
int_argument ptrdiff a = a
int_argument half a = sign_extend a
int_argument half_half a = sign_extend a
int_argument long_dbl a = sign_extend a
int_argument undef a = sign_extend a

abbrev pub uint_argument : SizeClass → ℕ → ℕ
uint_argument long a = a
uint_argument long_long a = a
uint_argument max a = a
uint_argument size a = a
uint_argument ptrdiff a = a
uint_argument half a = a % 2 ^ 32
uint_argument half_half a = a % 2 ^ 32
uint_argument long_dbl a = a % 2 ^ 32
uint_argument undef a = a % 2 ^ 32

-- What a conversion leaves: memory, the index in `buf`, the number of the next argument, and whether `j` goes back.
pub record Conversion : Type 0 where
  pub memory : Memory
  pub i : ℕ
  pub n : ℕ
  pub back : Bool

-- if (i < len) strncpy(buf + i, s, len - i)
abbrev pub copy_in : Memory → (buf i len s : ℕ) → Memory
copy_in m buf i len s = if ltb i len then strncpy m (buf + i) s (len - i) else m

-- if (i < len) buf[i] = ch
abbrev pub put_in : Memory → (buf i len ch : ℕ) → Memory
put_in m buf i len ch = if ltb i len then poke m (buf + i) (ch % 256) else m

-- A string that is copied, and `i += strlen(s) - 1`.
pub put_string : (fuel : ℕ) → Memory → (buf i len n s : ℕ) → Option Conversion
put_string fuel m buf i len n s =
    let m' = copy_in m buf i len s in
    strlen fuel m' s >>= λ k.
    some (record { memory = m'; i = add64 i (sub64 k 1); n = n; back = false })

-- The radix is not passed on: `radix` is ignored.
pub format_int :
    (fuel numbuf : ℕ)
    → Memory
    → (buf i len n : ℕ) → SizeClass
    → (arg radix letter_a : ℕ) → Option Conversion
unfolding put_string
format_int fuel numbuf m buf i len n size_class arg radix letter_a =
    itoa m (int_argument size_class arg) numbuf 10 letter_a >>= λ m'.
    put_string fuel m' buf i len n numbuf

pub format_uint :
    (fuel numbuf : ℕ)
    → Memory
    → (buf i len n : ℕ) → SizeClass
    → (arg radix letter_a : ℕ) → Option Conversion
unfolding put_string
format_uint fuel numbuf m buf i len n size_class arg radix letter_a =
    utoa m (uint_argument size_class arg) numbuf 10 letter_a >>= λ m'.
    put_string fuel m' buf i len n numbuf

-- "(null)" is at `null_text`.
pub format_pointer :
    (fuel numbuf null_text : ℕ) → Memory → (buf i len n ptr : ℕ) → Option Conversion
unfolding put_string
format_pointer fuel numbuf null_text m buf i len n ptr =
    if ptr == 0
    then some
        (record { memory = copy_in m buf i len null_text; i = add64 i 5; n = n; back = false })
    else (utoa m ptr numbuf 16 b'A' >>= λ m'. put_string fuel m' buf i len n numbuf)

-- the switch over the character of the conversion
pub convert :
    (ftoa : Memory → (n numbuf : ℕ) → Memory) (fuel numbuf null_text : ℕ) (args : ℕ → ℕ)
    → Memory
    → (buf i len n : ℕ) → SizeClass
    → (c : ℕ) → Option Conversion
unfolding format_int format_uint format_pointer
convert ftoa fuel numbuf null_text args m buf i len n size_class c =
    if c == b'c'
    then some (record {
      memory = put_in m buf i len (args n);
      i = i;
      n = if ltb i len then n + 1 else n;
      back = false;
    })
    else if c == b's'
    then put_string fuel m buf i len (n + 1) (args n)
    else if c == b'd' || c == b'i'
    then format_int fuel numbuf m buf i len (n + 1) size_class (args n) 10 b'a'
    else if c == b'u'
    then format_uint fuel numbuf m buf i len (n + 1) size_class (args n) 10 b'a'
    else if c == b'x'
    then format_uint fuel numbuf m buf i len (n + 1) size_class (args n) 16 b'a'
    else if c == b'X'
    then format_uint fuel numbuf m buf i len (n + 1) size_class (args n) 16 b'A'
    else if c == b'o'
    then format_uint fuel numbuf m buf i len (n + 1) size_class (args n) 8 b'a'
    else if c == b'g'
    then put_string fuel (ftoa m n numbuf) buf i len (n + 1) numbuf
    else if c == b'p'
    then format_pointer fuel numbuf null_text m buf i len (n + 1) (args n)
    else some (record { memory = put_in m buf i len b'%'; i = i; n = n; back = not (c == b'%') })

-- The loop; the result is memory and `i`.
pub format_loop :
    (ftoa : Memory → (n numbuf : ℕ) → Memory) (numbuf null_text : ℕ) (args : ℕ → ℕ) (fuel : ℕ)
    → Memory
    → (buf len fmt i j n : ℕ) → Option (Memory × ℕ)
unfolding convert get_size_class
format_loop ftoa numbuf null_text args zero m buf len fmt i j n = none
format_loop ftoa numbuf null_text args (suc f) m buf len fmt i j n = elim (m (fmt + j) == 0) [
  | true ↦ some (m, i)
  | false ↦ elim (m (fmt + j) == b'%') [
    | true ↦
        let r = get_size_class m fmt j in
        convert ftoa f numbuf null_text args m buf i len n (r.0) (m (fmt + r.1)) >>= λ c.
        format_loop ftoa numbuf null_text args f c.memory buf len fmt (add64 c.i 1)
          (if c.back then r.1 else r.1 + 1) c.n
    | false ↦
        format_loop ftoa numbuf null_text args f (put_in m buf i len (m (fmt + j))) buf len fmt
          (add64 i 1) (j + 1) n
  ]
]

-- the terminator
pub terminate : Memory → (buf i len : ℕ) → Memory
terminate m buf i len =
    let m' = if i == len then (if ltb 0 i then poke m (buf + (i - 1)) 0 else m) else m in
    if ltb i len then poke m' (buf + i) 0 else if ltb 0 len then poke m' (buf + (len - 1)) 0 else m'

-- The memory after the call, and `i`, of which the call returns the lower 32 bits.
unfoldable pub vsnprintf :
    (ftoa : Memory → (n numbuf : ℕ) → Memory) (numbuf null_text : ℕ) (args : ℕ → ℕ) (fuel : ℕ)
    → Memory
    → (buf len fmt : ℕ) → Option (Memory × ℕ)
unfolding format_loop terminate
vsnprintf ftoa numbuf null_text args fuel m buf len fmt =
    format_loop ftoa numbuf null_text args fuel m buf len fmt 0 0 0 >>= λ r.
    some (terminate (r.0) buf (r.1) len, r.1)
