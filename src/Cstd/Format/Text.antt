-- ===== src/Cstd/Format/Text.antt =====
-- `vsnprintf` on a text without conversions.
use frosk_current.Prelude.{
  ℕ, zero, suc, ◌+◌, ◌-◌, ◌^◌, ◌≤◌, ◌<◌, ◌≡◌, ◌⊎◌, inl, inr, true, false, some, List, [], ◌∷◌, ◌==◌,
  length, arith, ap, ◌∙◌, refl,
}
use mathlib.Core.Path.{subst}
use frosk_current.Prelude.Words.{add64}
use frosk_current.Prelude.Memory.{Memory, IsString}
use frosk_current.Cstd.Format.{put_in, format_loop, terminate, vsnprintf}

-- no character is a percent sign
abbrev pub IsText : List ℕ → Type 0
IsText [] = Unit
IsText (c ∷ s) = ((c == b'%') ≡ false) × IsText s

-- the characters from index `i` on that are in front of `end`
abbrev pub Copied : Memory → (buf end i : ℕ) → List ℕ → Type 0
Copied m buf end i [] = Unit
Copied m buf end i (c ∷ s) = (i < end → m (buf + i) ≡ c) × Copied m buf end (i + 1) s

IsString-same :
    (m m' : Memory) (a : ℕ) (s : List ℕ)
    → ((q : ℕ) → a ≤ q → q ≤ a + length s → m' q ≡ m q)
    → IsString m a s
    → IsString m' a s
IsString-same m m' a [] h str = h a (omega arith) (omega arith) ∙ str
IsString-same m m' a (c ∷ s) h (here, above, byte, str) = (
  h a (omega arith) (omega arith) ∙ here,
  above,
  byte,
  IsString-same m m' (a + 1) s (λ q lo hi. h q (omega arith) (omega arith)) str,
)

module _ (ftoa : Memory → (n numbuf : ℕ) → Memory) (numbuf null_text : ℕ) (args : ℕ → ℕ)
    (buf len fmt : ℕ) where
  plain-step :
      (f : ℕ) (m : Memory) (i n : ℕ)
      → (m (fmt + i) == 0) ≡ false
      → (m (fmt + i) == b'%') ≡ false
      → add64 i 1 ≡ i + 1
      → format_loop ftoa numbuf null_text args (suc f) m buf len fmt i i n
        ≡ format_loop ftoa numbuf null_text args f
            (put_in m buf i len (m (fmt + i)))
            buf
            len
            fmt
            (i + 1)
            (i + 1)
            n
  unfolding format_loop
  plain-step f m i n more no_percent next =
      rw (format_loop, more, no_percent)
        (ap
          (λ k.
            format_loop ftoa numbuf null_text args f (put_in m buf i len (m (fmt + i))) buf len fmt
              k (i + 1) n)
          next)

  format_loop-Copied :
      (f : ℕ) (m : Memory) (i n : ℕ) (s : List ℕ)
      → IsString m (fmt + i) s
      → IsText s
      → (fmt + i + length s < buf) ⊎ (buf + len ≤ fmt)
      → length s < f
      → i + length s < 2 ^ 64
      → (m' : Memory) × (format_loop ftoa numbuf null_text args f m buf len fmt i i n
          ≡ some (m', i + length s))
        × Copied m' buf len i s
        × ((q : ℕ) → q < buf + i → m' q ≡ m q)
  unfolding format_loop
  format_loop-Copied zero m i n s str text apart fuel small = absurd (omega arith)
  format_loop-Copied (suc f) m i n [] str text apart fuel small =
      let end : (m (fmt + i) == 0) ≡ true = ground (arith, str) in
      (m, rw (format_loop, end) (ap (λ k. some (m, k)) (omega arith)), tt, λ q h. refl)
  format_loop-Copied (suc f) m i n (c ∷ s) (here, above, byte, str) (plain, text) apart fuel small =
      let more : (m (fmt + i) == 0) ≡ false = ground (arith, here, above) in
      let no_percent : (m (fmt + i) == b'%') ≡ false = ap (λ t. t == b'%') here ∙ plain in
      let m1 = put_in m buf i len (m (fmt + i)) in
      let same : (q : ℕ) → fmt + i + 1 ≤ q → q ≤ fmt + i + 1 + length s → m1 q ≡ m q = λ q lo hi.
        elim apart [ inl h ↦ ground (arith, lo, hi, h) | inr h ↦ ground (arith, lo, hi, h) ] in
      let at : fmt + i + 1 ≡ fmt + (i + 1) = omega arith in
      let str1 : IsString m1 (fmt + (i + 1)) s =
        subst (λ a. IsString m1 a s) at (IsString-same m m1 (fmt + i + 1) s same str) in
      let apart' : (fmt + (i + 1) + length s < buf) ⊎ (buf + len ≤ fmt) = elim apart [
        | inl h ↦ inl (omega arith)
        | inr h ↦ inr h
      ] in
      let next : add64 i 1 ≡ i + 1 = omega arith in
      let (m', run, copied, frame) =
        format_loop-Copied f m1 (i + 1) n s str1 text apart' (omega arith) (omega arith) in
      let sum : i + 1 + length s ≡ i + suc (length s) = omega arith in
      let put : i < len → m1 (buf + i) ≡ c = λ h. ground (arith, h, here, byte) in
      (
        m',
        plain-step f m i n more no_percent next ∙ run ∙ ap (λ k. some (m', k)) sum,
        (λ h. frame (buf + i) (omega arith) ∙ put h, copied),
        λ q h. frame q (omega arith) ∙ ground (arith, h),
      )

terminate-before :
    (m : Memory) (buf i len k : ℕ)
    → k < i
    → k + 1 < len
    → terminate m buf i len (buf + k) ≡ m (buf + k)
unfolding terminate
terminate-before m buf i len k h l = ground arith

Copied-terminate :
    (m : Memory) (buf len n i : ℕ) (s : List ℕ)
    → i + length s ≤ n
    → Copied m buf len i s
    → Copied (terminate m buf n len) buf (len - 1) i s
Copied-terminate m buf len n i [] few copied = tt
Copied-terminate m buf len n i (c ∷ s) few (here, copied) = (
  λ h. terminate-before m buf n len i (omega arith) (omega arith) ∙ here (omega arith),
  Copied-terminate m buf len n (i + 1) s (omega arith) copied,
)

-- For a text without percent signs, which the buffer does not overlap, and with fuel for its characters, `vsnprintf` returns the
-- length of the text, and the buffer has its characters but for the last byte.
pub vsnprintf-Copied :
    (ftoa : Memory → (n numbuf : ℕ) → Memory) (numbuf null_text : ℕ) (args : ℕ → ℕ) (f : ℕ)
    (m : Memory) (buf len fmt : ℕ) (s : List ℕ)
    → IsString m fmt s
    → IsText s
    → (fmt + length s < buf) ⊎ (buf + len ≤ fmt)
    → length s < f
    → length s < 2 ^ 64
    → (m' : Memory) × (vsnprintf ftoa numbuf null_text args f m buf len fmt ≡ some (m', length s))
      × Copied m' buf (len - 1) 0 s
unfolding vsnprintf
vsnprintf-Copied ftoa numbuf null_text args f m buf len fmt s str text apart fuel small =
    let at : fmt ≡ fmt + 0 = omega arith in
    let (m', run, copied, frame) =
      format_loop-Copied ftoa numbuf null_text args buf len fmt f m 0 0 s
        (subst (λ a. IsString m a s) at str) text
        (elim apart [ inl h ↦ inl (omega arith) | inr h ↦ inr h ]) fuel (omega arith) in
    let run' : format_loop ftoa numbuf null_text args f m buf len fmt 0 0 0 ≡ some (m', length s) =
      run ∙ ap (λ k. some (m', k)) (omega arith) in
    (
      terminate m' buf (length s) len,
      rw run' refl,
      Copied-terminate m' buf len (length s) 0 s (omega arith) copied,
    )
