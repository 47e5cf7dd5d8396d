-- ===== src/Cstd/Tests/Formats.antt =====
-- Formatted output.
use frosk_current.Prelude.{
  zero, suc, inr, ◌-◌, ◌+◌, ◌<◌, ◌==◌, ltb, if◌then◌else◌, ℕ, ◌≡◌, inl, refl, some, [], ◌∷◌, arith,
}
use frosk_current.Prelude.Memory.{Memory, memory_of}
use frosk_current.Cstd.Format.{get_size_class, vsnprintf}
use frosk_current.Cstd.Format.Frame.{IsWithin}
use frosk_current.Cstd.Format.Written.{HasPlainConversions, vsnprintf-IsWithin}
use frosk_current.Cstd.Format.Text.{Copied, vsnprintf-Copied}

-- "hey" at 4
abbrev m : Memory
m = memory_of (b'a' ∷ b'%' ∷ b'c' ∷ 0 ∷ b'h' ∷ b'e' ∷ b'y' ∷ 0 ∷ [])

abbrev no_ftoa : Memory → (n numbuf : ℕ) → Memory
no_ftoa m n numbuf = m

vsnprintf-Copied_example :
    (m' : Memory) × (vsnprintf no_ftoa 200 300 (λ _. 0) 9 m 100 3 4 ≡ some (m', 3))
    × Copied m' 100 2 0 (b'h' ∷ b'e' ∷ b'y' ∷ [])
vsnprintf-Copied_example =
    vsnprintf-Copied no_ftoa 200 300 (λ _. 0) 9 m 100 3 4 (b'h' ∷ b'e' ∷ b'y' ∷ [])
      (
        refl,
        omega arith,
        omega arith,
        (refl, omega arith, omega arith, (refl, omega arith, omega arith, refl)),
      )
      (refl, (refl, (refl, tt))) (inl (omega arith)) (omega arith) (omega arith)

-- "%d" at 10
abbrev number_format : Memory
number_format q = if q == 10 then b'%' else if q == 11 then b'd' else 0

number_format-conversions : HasPlainConversions number_format 10 2
unfolding get_size_class
number_format-conversions zero lt percent = (refl, refl)
number_format-conversions (suc zero) lt percent = absurd (ground (arith, percent))
number_format-conversions (suc (suc j)) lt percent = absurd (omega arith)

vsnprintf-IsWithin_example :
    (m' : Memory) × (i : ℕ) × (vsnprintf no_ftoa 200 400 (λ _. 42) 70 number_format 100 3 10
      ≡ some (m', i))
    × IsWithin 100 3 200 number_format m'
    × (0 < 3 → m' (100 + (if ltb i 3 then i else 3 - 1)) ≡ 0)
vsnprintf-IsWithin_example =
    vsnprintf-IsWithin no_ftoa 200 400 (λ _. 42) 70 number_format 100 3 10 (b'%' ∷ b'd' ∷ [])
      (refl, omega arith, omega arith, (refl, omega arith, omega arith, refl))
      number_format-conversions (inl (omega arith)) (inl (omega arith)) (inr (omega arith))
      (λ n. omega arith) (omega arith)
