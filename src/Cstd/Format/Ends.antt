-- ===== src/Cstd/Format/Ends.antt =====
-- The conversions of numbers, characters and pointers end.
use frosk_current.Prelude.{
  ℕ, ◌+◌, ◌^◌, ◌≤◌, ◌<◌, ◌≡◌, ◌⊎◌, inl, inr, Bool, true, false, Option, some, List, ◌==◌, ◌||◌,
  if◌then◌else◌, ◌>>=◌, arith, refl, length,
}
use frosk_current.Prelude.Words.{add64, sub64}
use frosk_current.Prelude.Memory.{Memory, IsString}
use frosk_current.Cstd.Str.Copy.{strlen-IsString, IsString-frame}
use frosk_current.Cstd.Number.{utoa, itoa}
use frosk_current.Cstd.Number.Text.{
  LeavesString, IsPrinted-LeavesString, itoa-LeavesString, utoa-IsPrinted,
}
use frosk_current.Cstd.Format.{
  SizeClass, undef, half, half_half, long, long_long, long_dbl, max, size, ptrdiff, int_argument,
  uint_argument, copy_in, put_in, put_string, format_int, format_uint, format_pointer, convert,
}
use frosk_current.Cstd.Format.Frame.{copy_in-outside}

-- a computation that returns
abbrev pub Ends : {A : Type 0} → Option A → Type 0
Ends {A} r = (x : A) × (r ≡ some x)

if-Ends :
    {A : Type 0} (b : Bool) (x y : Option A)
    → (b ≡ true → Ends x)
    → (b ≡ false → Ends y)
    → Ends (if b then x else y)
if-Ends true x y left right = left refl
if-Ends false x y left right = right refl

-- the two arrays have no byte in common
abbrev pub Separate : (buf len numbuf : ℕ) → Type 0
Separate buf len numbuf = (numbuf + 128 ≤ buf) ⊎ (buf + len ≤ numbuf)

put_string-Ends :
    (fuel : ℕ) (m : Memory) (buf i len n numbuf : ℕ) (s : List ℕ)
    → Separate buf len numbuf
    → IsString m numbuf s
    → length s < 67
    → 67 ≤ fuel
    → Ends (put_string fuel m buf i len n numbuf)
unfolding put_string
put_string-Ends fuel m buf i len n numbuf s apart str short enough =
    let m' = copy_in m buf i len numbuf in
    let str' : IsString m' numbuf s =
      IsString-frame m m' numbuf s
        (λ q lo hi.
          copy_in-outside buf len numbuf m i numbuf q
            (elim apart [ inl h ↦ inl (omega arith) | inr h ↦ inr (omega arith) ]))
        str in
    let measured = strlen-IsString fuel m' numbuf s str' (omega arith) in
    (
      record { memory = m'; i = add64 i (sub64 (length s) 1); n = n; back = false },
      rw measured refl,
    )

-- a number that is printed, and what follows
printed-Ends :
    (fuel : ℕ) (buf i len n numbuf : ℕ) (r : Option Memory)
    → Separate buf len numbuf
    → LeavesString numbuf r
    → 67 ≤ fuel
    → Ends (r >>= λ m'. put_string fuel m' buf i len n numbuf)
printed-Ends fuel buf i len n numbuf r apart (after, s, run, text, short) enough =
    rw run (put_string-Ends fuel after buf i len n numbuf s apart text (omega arith) enough)

int_argument-range : (class : SizeClass) (a : ℕ) → a < 2 ^ 64 → int_argument class a < 2 ^ 64
int_argument-range undef a h = ground arith
int_argument-range half a h = ground arith
int_argument-range half_half a h = ground arith
int_argument-range long a h = h
int_argument-range long_long a h = h
int_argument-range long_dbl a h = ground arith
int_argument-range max a h = h
int_argument-range size a h = h
int_argument-range ptrdiff a h = h

uint_argument-range : (class : SizeClass) (a : ℕ) → a < 2 ^ 64 → uint_argument class a < 2 ^ 64
uint_argument-range undef a h = omega arith
uint_argument-range half a h = omega arith
uint_argument-range half_half a h = omega arith
uint_argument-range long a h = h
uint_argument-range long_long a h = h
uint_argument-range long_dbl a h = omega arith
uint_argument-range max a h = h
uint_argument-range size a h = h
uint_argument-range ptrdiff a h = h

format_uint-Ends :
    (fuel numbuf : ℕ) (m : Memory) (buf i len n : ℕ) (class : SizeClass) (arg radix letter_a : ℕ)
    → Separate buf len numbuf
    → arg < 2 ^ 64
    → 65 ≤ letter_a
    → letter_a ≤ 97
    → 67 ≤ fuel
    → Ends (format_uint fuel numbuf m buf i len n class arg radix letter_a)
unfolding format_uint
format_uint-Ends fuel numbuf m buf i len n class arg radix letter_a apart range lo hi enough =
    let v = uint_argument class arg in
    let p =
      utoa-IsPrinted m v numbuf 10 letter_a (uint_argument-range class arg range) (omega arith)
        (omega arith) lo hi in
    printed-Ends fuel buf i len n numbuf (utoa m v numbuf 10 letter_a) apart
      (IsPrinted-LeavesString m numbuf v 10 letter_a _ p) enough

format_int-Ends :
    (fuel numbuf : ℕ) (m : Memory) (buf i len n : ℕ) (class : SizeClass) (arg radix letter_a : ℕ)
    → Separate buf len numbuf
    → arg < 2 ^ 64
    → 65 ≤ letter_a
    → letter_a ≤ 97
    → 67 ≤ fuel
    → Ends (format_int fuel numbuf m buf i len n class arg radix letter_a)
unfolding format_int
format_int-Ends fuel numbuf m buf i len n class arg radix letter_a apart range lo hi enough =
    let v = int_argument class arg in
    printed-Ends fuel buf i len n numbuf (itoa m v numbuf 10 letter_a) apart
      (itoa-LeavesString m v numbuf 10 letter_a (int_argument-range class arg range) (omega arith)
        (omega arith) lo hi)
      enough

format_pointer-Ends :
    (fuel numbuf null_text : ℕ) (m : Memory) (buf i len n ptr : ℕ)
    → Separate buf len numbuf
    → ptr < 2 ^ 64
    → 67 ≤ fuel
    → Ends (format_pointer fuel numbuf null_text m buf i len n ptr)
unfolding format_pointer
format_pointer-Ends fuel numbuf null_text m buf i len n ptr apart range enough =
    if-Ends (ptr == 0) _ _
      (λ e. (
        record { memory = copy_in m buf i len null_text; i = add64 i 5; n = n; back = false },
        refl,
      ))
      (λ e.
        let p =
          utoa-IsPrinted m ptr numbuf 16 b'A' range (omega arith) (omega arith) (omega arith)
            (omega arith) in
        printed-Ends fuel buf i len n numbuf (utoa m ptr numbuf 16 b'A') apart
          (IsPrinted-LeavesString m numbuf ptr 16 b'A' _ p) enough)

-- no conversion of a string or of a number with a fraction
abbrev pub IsPlainConversion : ℕ → Type 0
IsPlainConversion c = ((c == b's') ≡ false) × ((c == b'g') ≡ false)

contradiction : {A : Type 0} (b : Bool) → b ≡ true → b ≡ false → A
contradiction b t f = absurd (ground (arith, t, f))

pub convert-Ends :
    (ftoa : Memory → (n numbuf : ℕ) → Memory) (fuel numbuf null_text : ℕ) (args : ℕ → ℕ)
    (m : Memory) (buf i len n : ℕ) (class : SizeClass) (c : ℕ)
    → Separate buf len numbuf
    → args n < 2 ^ 64
    → IsPlainConversion c
    → 67 ≤ fuel
    → Ends (convert ftoa fuel numbuf null_text args m buf i len n class c)
unfolding convert
convert-Ends ftoa fuel numbuf null_text args m buf i len n class c apart range (no_s, no_g) enough =
    let print_int = format_int-Ends fuel numbuf m buf i len (n + 1) class (args n) in
    let print_uint = format_uint-Ends fuel numbuf m buf i len (n + 1) class (args n) in
    if-Ends (c == b'c') _ _ (λ e. (_, refl))
      (λ e.
        if-Ends (c == b's') _ _ (λ e. contradiction (c == b's') e no_s)
          (λ e.
            if-Ends (c == b'd' || c == b'i') _ _
              (λ e. print_int 10 b'a' apart range (omega arith) (omega arith) enough)
              (λ e.
                if-Ends (c == b'u') _ _
                  (λ e. print_uint 10 b'a' apart range (omega arith) (omega arith) enough)
                  (λ e.
                    if-Ends (c == b'x') _ _
                      (λ e. print_uint 16 b'a' apart range (omega arith) (omega arith) enough)
                      (λ e.
                        if-Ends (c == b'X') _ _
                          (λ e. print_uint 16 b'A' apart range (omega arith) (omega arith) enough)
                          (λ e.
                            if-Ends (c == b'o') _ _
                              (λ e.
                                print_uint 8 b'a' apart range (omega arith) (omega arith) enough)
                              (λ e.
                                if-Ends (c == b'g') _ _ (λ e. contradiction (c == b'g') e no_g)
                                  (λ e.
                                    if-Ends (c == b'p') _ _
                                      (λ e.
                                        format_pointer-Ends fuel numbuf null_text m buf i len
                                          (n + 1) (args n) apart range enough)
                                      (λ e. (_, refl))))))))))

-- what `convert` does without a conversion of a fraction does not depend on `ftoa`
pub convert-no_ftoa :
    (ftoa other : Memory → (n numbuf : ℕ) → Memory) (fuel numbuf null_text : ℕ) (args : ℕ → ℕ)
    (m : Memory) (buf i len n : ℕ) (class : SizeClass) (c : ℕ)
    → (c == b'g') ≡ false
    → convert ftoa fuel numbuf null_text args m buf i len n class c
      ≡ convert other fuel numbuf null_text args m buf i len n class c
unfolding convert
convert-no_ftoa ftoa other fuel numbuf null_text args m buf i len n class c no_g =
    rw (convert, no_g) refl

-- at the end of the format the percent sign is printed, and the zero byte is met again
pub convert-end :
    (ftoa : Memory → (n numbuf : ℕ) → Memory) (fuel numbuf null_text : ℕ) (args : ℕ → ℕ)
    (m : Memory) (buf i len n : ℕ) (class : SizeClass) (c : ℕ)
    → c ≡ 0
    → convert ftoa fuel numbuf null_text args m buf i len n class c
      ≡ some (record { memory = put_in m buf i len b'%'; i = i; n = n; back = true })
unfolding convert
convert-end ftoa fuel numbuf null_text args m buf i len n class c end = rw end refl
