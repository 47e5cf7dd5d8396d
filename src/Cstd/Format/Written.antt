-- ===== src/Cstd/Format/Written.antt =====
-- Where `vsnprintf` writes, and that it ends.
use frosk_current.Prelude.{
  ℕ, zero, suc, ◌+◌, ◌-◌, ◌^◌, ◌≤◌, ◌<◌, ◌≡◌, ◌⊎◌, inl, inr, true, false, some, List, [], ◌∷◌, ◌==◌,
  ltb, if◌then◌else◌, arith, sym, ap, ◌∙◌, refl, length,
}
use frosk_current.Prelude.Memory.{Memory, IsString}
use frosk_current.Cstd.Format.{get_size_class, terminate, vsnprintf}
use frosk_current.Cstd.Format.Frame.{IsApart, IsWithin, terminate-IsWithin, terminate-zero}
use frosk_current.Cstd.Format.Ends.{Separate, IsPlainConversion}
use frosk_current.Cstd.Format.Bounded.{loop-IsWithin}

-- No percent sign of the format begins the conversion of a string or of a number with a fraction.
abbrev pub HasPlainConversions : Memory → (fmt end : ℕ) → Type 0
HasPlainConversions m fmt end =
    (j : ℕ)
    → j < end
    → (m (fmt + j) == b'%') ≡ true
    → IsPlainConversion (m (fmt + (get_size_class m fmt j).1))

IsString-more :
    (m : Memory) (a : ℕ) (s : List ℕ) (k : ℕ)
    → IsString m a s
    → k < length s
    → (m (a + k) == 0) ≡ false
IsString-more m a [] k str lt = absurd (omega arith)
IsString-more m a (c ∷ s) zero (here, above, _, _) lt =
    let at : a ≡ a + 0 = omega arith in ap (λ q. m q == 0) (sym at) ∙ ground (arith, here, above)
IsString-more m a (c ∷ s) (suc k) (_, _, _, str) lt =
    let at : a + suc k ≡ a + 1 + k = omega arith in
    ap (λ q. m q == 0) at ∙ IsString-more m (a + 1) s k str (omega arith)

IsString-end : (m : Memory) (a : ℕ) (s : List ℕ) → IsString m a s → m (a + length s) ≡ 0
IsString-end m a [] str = let at : a + 0 ≡ a = omega arith in ap m at ∙ str
IsString-end m a (c ∷ s) (_, _, _, str) =
    let at : a + suc (length s) ≡ a + 1 + length s = omega arith in
    ap m at ∙ IsString-end m (a + 1) s str

-- For a format without conversions of strings and of numbers with a fraction, any arguments of 64 bits, and fuel for its
-- characters, `vsnprintf` returns if the buffer, the array for numbers and the format have no byte in common. It has
-- written to the `len` bytes of the buffer and to the array for numbers only; and if `len` is not 0, a terminator
-- stands behind the characters, or in the last byte of the buffer if they do not fit.
pub vsnprintf-IsWithin :
    (ftoa : Memory → (n numbuf : ℕ) → Memory) (numbuf null_text : ℕ) (args : ℕ → ℕ) (f : ℕ)
    (m : Memory) (buf len fmt : ℕ) (s : List ℕ)
    → IsString m fmt s
    → HasPlainConversions m fmt (length s)
    → (fmt + length s < buf) ⊎ (buf + len ≤ fmt)
    → (fmt + length s < numbuf) ⊎ (numbuf + 128 ≤ fmt)
    → Separate buf len numbuf
    → ((n : ℕ) → args n < 2 ^ 64)
    → length s + 68 ≤ f
    → (m' : Memory) × (i : ℕ) × (vsnprintf ftoa numbuf null_text args f m buf len fmt
        ≡ some (m', i))
      × IsWithin buf len numbuf m m'
      × (0 < len → m' (buf + (if ltb i len then i else len - 1)) ≡ 0)
unfolding vsnprintf
vsnprintf-IsWithin ftoa numbuf null_text args f m buf len fmt s str conversions buf_far numbuf_far
      apart words enough =
    let far : (k : ℕ) → k ≤ length s → IsApart buf len numbuf (fmt + k) = λ k le. (
      elim buf_far [ inl h ↦ inl (omega arith) | inr h ↦ inr (omega arith) ],
      elim numbuf_far [ inl h ↦ inl (omega arith) | inr h ↦ inr (omega arith) ],
    ) in
    let (m', i, run, within) =
      loop-IsWithin ftoa numbuf null_text args buf len fmt m (length s)
        (λ k. IsString-more m fmt s k str) (IsString-end m fmt s str) conversions far apart words f
        m 0 0 0 (λ k le. refl) (omega arith) (omega arith) in
    (
      terminate m' buf i len,
      i,
      rw run refl,
      λ q out. terminate-IsWithin buf len numbuf m' i q out ∙ within q out,
      terminate-zero buf len numbuf m' i,
    )
