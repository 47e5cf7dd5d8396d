-- ===== src/Cstd/Format/Frame.antt =====
-- The conversions write to the buffer and to `numbuf` only.
use mathlib.Core.Option.{some-injective}
use frosk_current.Prelude.{
  ℕ, ◌+◌, ◌-◌, ◌≤◌, ◌<◌, ◌≡◌, ◌⊎◌, inl, inr, Bool, true, false, Option, some, ◌==◌, ltb, ◌||◌,
  if◌then◌else◌, bind-some, Bool-cases, arith, sym, ap, ◌∙◌, refl,
}
use frosk_current.Prelude.Memory.{Memory}
use frosk_current.Cstd.Str.{strlen}
use frosk_current.Cstd.Str.Copy.{strncpy-outside}
use frosk_current.Cstd.Number.{utoa, itoa}
use frosk_current.Cstd.Number.Frame.{utoa-outside, itoa-outside}
use frosk_current.Cstd.Format.{
  SizeClass, int_argument, uint_argument, Conversion, copy_in, put_in, put_string, format_int,
  format_uint, format_pointer, convert, terminate,
}

behind : (a q n : ℕ) → n ≤ 128 → (q < a) ⊎ (a + 128 ≤ q) → (q < a) ⊎ (a + n ≤ q)
behind a q n h out = elim out [ inl e ↦ inl e | inr e ↦ inr (omega arith) ]

-- a result of one of two branches
if-returns :
    {G : Type 0} (b : Bool) (x y : Option Conversion) (c : Conversion)
    → (x ≡ some c → G)
    → (y ≡ some c → G)
    → (if b then x else y) ≡ some c
    → G
if-returns true x y c left right run = left run
if-returns false x y c left right run = right run

module _ (buf len numbuf : ℕ) where
  -- outside of the two buffers
  abbrev pub IsApart : ℕ → Type 0
  IsApart q = ((q < buf) ⊎ (buf + len ≤ q)) × ((q < numbuf) ⊎ (numbuf + 128 ≤ q))

  -- memory is the same outside of them
  abbrev pub IsWithin : Memory → Memory → Type 0
  IsWithin m m' = (q : ℕ) → IsApart q → m' q ≡ m q

  pub put_in-IsWithin : (m : Memory) (i ch : ℕ) → IsWithin m (put_in m buf i len ch)
  put_in-IsWithin m i ch q (out, _) = elim out [
    | inl h ↦ ground (arith, h)
    | inr h ↦ ground (arith, h)
  ]

  pub copy_in-outside :
      (m : Memory) (i s q : ℕ) → (q < buf) ⊎ (buf + len ≤ q) → copy_in m buf i len s q ≡ m q
  copy_in-outside m i s q out = elim (Bool-cases (ltb i len)) [
    | inl e ↦
        let room : i < len = ground (arith, e) in
        rw e (
          strncpy-outside m (buf + i) s (len - i) q
            (elim out [ inl h ↦ inl (omega arith) | inr h ↦ inr (omega (arith, room)) ]))
    | inr e ↦ rw e refl
  ]

  copy_in-IsWithin : (m : Memory) (i s : ℕ) → IsWithin m (copy_in m buf i len s)
  copy_in-IsWithin m i s q (out, _) = copy_in-outside m i s q out

  put_string-IsWithin :
      (fuel : ℕ) (m : Memory) (i n s : ℕ) (c : Conversion)
      → put_string fuel m buf i len n s ≡ some c
      → IsWithin m c.memory
  unfolding put_string
  put_string-IsWithin fuel m i n s c run q apart =
      let m' = copy_in m buf i len s in
      let (k, measured, made) = bind-some (strlen fuel m' s) _ c run in
      ap (λ t. t.memory q) (sym (some-injective _ _ made)) ∙ copy_in-IsWithin m i s q apart

  format_int-IsWithin :
      (fuel : ℕ) (m : Memory) (i n : ℕ) (class : SizeClass) (arg radix letter_a : ℕ)
      (c : Conversion)
      → format_int fuel numbuf m buf i len n class arg radix letter_a ≡ some c
      → IsWithin m c.memory
  unfolding format_int
  format_int-IsWithin fuel m i n class arg radix letter_a c run q apart =
      let (m', printed, put) =
        bind-some (itoa m (int_argument class arg) numbuf 10 letter_a) _ c run in
      put_string-IsWithin fuel m' i n numbuf c put q apart
      ∙ itoa-outside m m' (int_argument class arg) numbuf 10 letter_a q printed
          (behind numbuf q 66 (omega arith) (apart.1))

  format_uint-IsWithin :
      (fuel : ℕ) (m : Memory) (i n : ℕ) (class : SizeClass) (arg radix letter_a : ℕ)
      (c : Conversion)
      → format_uint fuel numbuf m buf i len n class arg radix letter_a ≡ some c
      → IsWithin m c.memory
  unfolding format_uint
  format_uint-IsWithin fuel m i n class arg radix letter_a c run q apart =
      let (m', printed, put) =
        bind-some (utoa m (uint_argument class arg) numbuf 10 letter_a) _ c run in
      put_string-IsWithin fuel m' i n numbuf c put q apart
      ∙ utoa-outside m m' (uint_argument class arg) numbuf 10 letter_a q printed
          (behind numbuf q 65 (omega arith) (apart.1))

  returned-IsWithin :
      (m m' : Memory) (c d : Conversion)
      → IsWithin m m'
      → c.memory ≡ m'
      → some c ≡ some d
      → IsWithin m d.memory
  returned-IsWithin m m' c d within same run q apart =
      ap (λ t. t.memory q) (sym (some-injective c d run)) ∙ ap (λ t. t q) same ∙ within q apart

  format_pointer-IsWithin :
      (fuel null_text : ℕ) (m : Memory) (i n ptr : ℕ) (c : Conversion)
      → format_pointer fuel numbuf null_text m buf i len n ptr ≡ some c
      → IsWithin m c.memory
  unfolding format_pointer
  format_pointer-IsWithin fuel null_text m i n ptr c =
      if-returns (ptr == 0) _ _ c
        (returned-IsWithin m (copy_in m buf i len null_text) _ c (copy_in-IsWithin m i null_text)
          refl)
        (λ run q apart.
          let (m', printed, put) = bind-some (utoa m ptr numbuf 16 b'A') _ c run in
          put_string-IsWithin fuel m' i n numbuf c put q apart
          ∙ utoa-outside m m' ptr numbuf 16 b'A' q printed
              (behind numbuf q 65 (omega arith) (apart.1)))

  -- `ftoa` writes to `numbuf` only.
  module _ (ftoa : Memory → (n numbuf : ℕ) → Memory)
      (ftoa_within : (m : Memory) (n q : ℕ)
        → (q < numbuf) ⊎ (numbuf + 128 ≤ q)
        → ftoa m n numbuf q ≡ m q)
      (null_text : ℕ) (args : ℕ → ℕ) where
    pub convert-IsWithin :
        (fuel : ℕ) (m : Memory) (i n : ℕ) (class : SizeClass) (ch : ℕ) (c : Conversion)
        → convert ftoa fuel numbuf null_text args m buf i len n class ch ≡ some c
        → IsWithin m c.memory
    unfolding convert
    convert-IsWithin fuel m i n class ch c =
        if-returns (ch == b'c') _ _ c
          (returned-IsWithin m (put_in m buf i len (args n)) _ c (put_in-IsWithin m i (args n))
            refl)
          (if-returns (ch == b's') _ _ c (put_string-IsWithin fuel m i (n + 1) (args n) c) (
            if-returns (ch == b'd' || ch == b'i') _ _ c
              (format_int-IsWithin fuel m i (n + 1) class (args n) 10 b'a' c)
              (if-returns (ch == b'u') _ _ c
                (format_uint-IsWithin fuel m i (n + 1) class (args n) 10 b'a' c)
                (if-returns (ch == b'x') _ _ c
                  (format_uint-IsWithin fuel m i (n + 1) class (args n) 16 b'a' c)
                  (if-returns (ch == b'X') _ _ c
                    (format_uint-IsWithin fuel m i (n + 1) class (args n) 16 b'A' c)
                    (if-returns (ch == b'o') _ _ c
                      (format_uint-IsWithin fuel m i (n + 1) class (args n) 8 b'a' c)
                      (if-returns (ch == b'g') _ _ c
                        (λ run q apart.
                          put_string-IsWithin fuel (ftoa m n numbuf) i (n + 1) numbuf c run q apart
                          ∙ ftoa_within m n q (apart.1))
                        (if-returns (ch == b'p') _ _ c
                          (format_pointer-IsWithin fuel null_text m i (n + 1) (args n) c)
                          (returned-IsWithin m (put_in m buf i len b'%') _ c
                            (put_in-IsWithin m i b'%') refl)))))))))

  pub terminate-IsWithin : (m : Memory) (i : ℕ) → IsWithin m (terminate m buf i len)
  unfolding terminate
  terminate-IsWithin m i q (out, _) = elim out [
    | inl h ↦ ground (arith, h)
    | inr h ↦ ground (arith, h)
  ]

  pub terminate-zero :
      (m : Memory) (i : ℕ)
      → 0 < len
      → terminate m buf i len (buf + (if ltb i len then i else len - 1)) ≡ 0
  unfolding terminate
  terminate-zero m i room = ground arith
