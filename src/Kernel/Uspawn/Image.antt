-- ===== src/Kernel/Uspawn/Image.antt =====
-- Code and data, zeros and the preamble in the memory of a new program.
use frosk_current.Prelude.{
  ℕ, ◌+◌, ◌-◌, ◌<◌, ◌≤◌, ◌≡◌, ◌⊎◌, inl, inr, ltb, leb, ◌&&◌, if◌then◌else◌, arith, ◌∙◌,
}
use frosk_current.Prelude.Memory.{Memory}
use frosk_current.Cstd.Str.{memcpy, memset}
use frosk_current.Cstd.Str.Copy.{memcpy_lem, memset_lem}
use frosk_current.Kernel.Uspawn.{put_code}

-- `n` bytes at `a`, none of them between `lo` and `hi`
abbrev pub IsElsewhere : (lo hi a n : ℕ) → Type 0
IsElsewhere lo hi a n = (a + n ≤ lo) ⊎ (hi ≤ a)

module _ (m : Memory) (tvirt image csz bsz pre psz : ℕ)
    (image_out : IsElsewhere tvirt (tvirt + csz + bsz + psz) image csz)
    (pre_out : IsElsewhere tvirt (tvirt + csz + bsz + psz) pre psz) where
  -- memory after the code, and after the zeros
  abbrev coded : Memory
  coded = memcpy m tvirt image csz

  abbrev zeroed : Memory
  zeroed = memset coded (tvirt + csz) 0 bsz

  coded_lem :
      (q : ℕ)
      → coded q ≡ (if leb tvirt q && ltb q (tvirt + csz) then m (image + (q - tvirt)) else m q)
  coded_lem q =
      memcpy_lem m tvirt image csz q
        (elim image_out [ inl h ↦ inr (omega arith) | inr h ↦ inl (omega arith) ])

  zeroed_lem :
      (q : ℕ) → zeroed q ≡ (if leb (tvirt + csz) q && ltb q (tvirt + csz + bsz) then 0 else coded q)
  zeroed_lem q = memset_lem coded (tvirt + csz) 0 bsz q

  put_code_lem :
      (q : ℕ)
      → put_code m tvirt image csz bsz pre psz q ≡ (
          if leb (tvirt + csz + bsz) q && ltb q (tvirt + csz + bsz + psz)
          then zeroed (pre + (q - (tvirt + csz + bsz)))
          else zeroed q)
  put_code_lem q =
      memcpy_lem zeroed (tvirt + csz + bsz) pre psz q
        (elim pre_out [ inl h ↦ inr (omega arith) | inr h ↦ inl (omega arith) ])

  pub put_code-code :
      (n : ℕ) → n < csz → put_code m tvirt image csz bsz pre psz (tvirt + n) ≡ m (image + n)
  put_code-code n lt =
      put_code_lem (tvirt + n) ∙ ground (arith, coded_lem (tvirt + n), zeroed_lem (tvirt + n))

  pub put_code-zeros :
      (n : ℕ) → n < bsz → put_code m tvirt image csz bsz pre psz (tvirt + csz + n) ≡ 0
  put_code-zeros n lt =
      put_code_lem (tvirt + csz + n) ∙ ground (arith, zeroed_lem (tvirt + csz + n))

  pub put_code-preamble :
      (n : ℕ)
      → n < psz
      → put_code m tvirt image csz bsz pre psz (tvirt + csz + bsz + n) ≡ m (pre + n)
  put_code-preamble n lt = put_code_lem (tvirt + csz + bsz + n) ∙ elim pre_out [
    | inl h ↦ ground (arith, h, coded_lem (pre + n), zeroed_lem (pre + n))
    | inr h ↦ ground (arith, h, coded_lem (pre + n), zeroed_lem (pre + n))
  ]

  pub put_code-outside :
      (q : ℕ)
      → (q < tvirt) ⊎ (tvirt + csz + bsz + psz ≤ q)
      → put_code m tvirt image csz bsz pre psz q ≡ m q
  put_code-outside q out = put_code_lem q ∙ elim out [
    | inl h ↦ ground (arith, h, coded_lem q, zeroed_lem q)
    | inr h ↦ ground (arith, h, coded_lem q, zeroed_lem q)
  ]
