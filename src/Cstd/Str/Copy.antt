-- ===== src/Cstd/Str/Copy.antt =====
-- `strlen`, `strcpy`, `memcpy`, `strdup` and `strndup`: what they leave in memory.
use native.Mathlib.Nat.{add_assoc, add-zero}
use frosk_current.Prelude.{
  ℕ, zero, suc, ◌+◌, ◌-◌, ◌%◌, ◌<◌, ◌≤◌, ◌≡◌, ◌⊎◌, inl, inr, some, List, [], ◌∷◌, arith, length,
  ltb, leb, ◌&&◌, if◌then◌else◌, ◌==◌, Bool-cases, refl, ◌∙◌,
}
use frosk_current.Prelude.Memory.{Memory, poke, IsString}
use frosk_current.Cstd.Str.{
  strlen_loop, strlen, strcpy_loop, strcpy, memcpy_loop, memcpy, memset_loop, memset, strncpy_loop,
  strncpy,
}

strlen_loop-IsString :
    (f : ℕ) (m : Memory) (a i : ℕ) (s : List ℕ)
    → IsString m (a + i) s
    → length s < f
    → strlen_loop f m a i ≡ some (i + length s)
unfolding strlen_loop
strlen_loop-IsString zero m a i s h lt = absurd (omega arith)
strlen_loop-IsString (suc f) m a i [] h lt = ground arith
strlen_loop-IsString (suc f) m a i (c ∷ s) h lt =
    let rest : IsString m (a + (i + 1)) s = rw (← add_assoc a i 1) h.3 in
    ground (arith, strlen_loop-IsString f m a (i + 1) s rest)

-- With fuel for the string, `strlen` returns its length.
pub strlen-IsString :
    (f : ℕ) (m : Memory) (a : ℕ) (xs : List ℕ)
    → IsString m a xs
    → length xs < f
    → strlen f m a ≡ some (length xs)
unfolding strlen
strlen-IsString f m a xs h lt =
    let here : IsString m (a + 0) xs = rw add-zero h in
    ground (arith, strlen_loop-IsString f m a 0 xs here)

-- The ranges of `n` bytes at `d` and at `s` have no byte in common.
abbrev pub Apart : ℕ → ℕ → ℕ → Type 0
Apart n d s = (d + n ≤ s) ⊎ (s + n ≤ d)

Apart-le : (k n d s : ℕ) → k ≤ n → Apart n d s → Apart k d s
Apart-le k n d s le (inl h) = inl (omega arith)
Apart-le k n d s le (inr h) = inr (omega arith)

memcpy_loop_lem :
    (k : ℕ) (m : Memory) (d s i q : ℕ)
    → Apart (i + k) d s
    → memcpy_loop k m d s i q
      ≡ (if leb (d + i) q && ltb q (d + i + k) then m (s + (q - d)) else m q)
unfolding memcpy_loop
memcpy_loop_lem zero m d s i q apart = ground arith
memcpy_loop_lem (suc k) m d s i q apart =
    let apart' = Apart-le (i + 1 + k) (i + suc k) d s (omega arith) apart in
    ground (arith, memcpy_loop_lem k (poke m (d + i) (m (s + i))) d s (i + 1) q apart')

-- `memcpy` between ranges that are apart moves exactly the `n` bytes, and changes no other byte.
pub memcpy_lem :
    (m : Memory) (d s n q : ℕ)
    → Apart n d s
    → memcpy m d s n q ≡ (if leb d q && ltb q (d + n) then m (s + (q - d)) else m q)
unfolding memcpy
memcpy_lem m d s n q apart =
    ground (arith, memcpy_loop_lem n m d s 0 q (Apart-le (0 + n) n d s (omega arith) apart))

-- A string survives a change that spares its bytes.
pub IsString-frame :
    (m m' : Memory) (a : ℕ) (xs : List ℕ)
    → ((q : ℕ) → a ≤ q → q ≤ a + length xs → m' q ≡ m q)
    → IsString m a xs
    → IsString m' a xs
IsString-frame m m' a [] same h = ground (arith, same a)
IsString-frame m m' a (x ∷ xs) same h = (
  ground (arith, same a),
  h.1,
  h.2,
  IsString-frame m m' (a + 1) xs (λ q lo hi. same q (omega arith) (omega arith)) h.3,
)

-- A string stands wherever its bytes and its terminator stand.
pub IsString-move :
    (m m' : Memory) (a b : ℕ) (xs : List ℕ)
    → ((i : ℕ) → i ≤ length xs → m' (b + i) ≡ m (a + i))
    → IsString m a xs
    → IsString m' b xs
IsString-move m m' a b [] same h = ground (arith, same 0)
IsString-move m m' a b (x ∷ xs) same h = (
  ground (arith, same 0),
  h.1,
  h.2,
  IsString-move m m' (a + 1) (b + 1) xs
      (λ i lt. ground (arith, same (i + 1), add_assoc a 1 i, add_assoc b 1 i)) h.3,
)

strcpy_loop-memcpy_loop :
    (f : ℕ) (m : Memory) (d s i : ℕ) (xs : List ℕ)
    → Apart (i + length xs + 1) d s
    → IsString m (s + i) xs
    → length xs < f
    → strcpy_loop f m (d + i) (s + i) ≡ some (memcpy_loop (length xs + 1) m d s i)
unfolding strcpy_loop memcpy_loop
strcpy_loop-memcpy_loop zero m d s i xs apart h lt = absurd (omega arith)
strcpy_loop-memcpy_loop (suc f) m d s i [] apart h lt = rw h (rw (h, strcpy_loop))
strcpy_loop-memcpy_loop (suc f) m d s i (x ∷ xs) apart h lt =
    let m' = poke m (d + i) (m (s + i)) in
    let apart' =
      Apart-le (i + 1 + length xs + 1) (i + suc (length xs) + 1) d s (omega arith) apart in
    let moved : IsString m' (s + i + 1) xs =
      IsString-frame m m' (s + i + 1) xs (λ q lo hi. ground arith) h.3 in
    let rest : IsString m' (s + (i + 1)) xs = rw (← add_assoc s i 1) moved in
    ground (
      arith,
      add_assoc d i 1,
      add_assoc s i 1,
      strcpy_loop-memcpy_loop f m' d s (i + 1) xs apart' rest,
    )

-- With fuel for the string, `strcpy` into a place apart from it copies the string with its
-- terminator as `memcpy` does: the copy stands at `d`, and no byte outside it changes.
pub strcpy-memcpy :
    (f : ℕ) (m : Memory) (d s : ℕ) (xs : List ℕ)
    → Apart (length xs + 1) d s
    → IsString m s xs
    → length xs < f
    → (strcpy f m d s ≡ some (memcpy m d s (length xs + 1)))
      × IsString (memcpy m d s (length xs + 1)) d xs
      × ((q : ℕ) → (q < d) ⊎ (d + length xs < q) → memcpy m d s (length xs + 1) q ≡ m q)
unfolding strcpy memcpy
strcpy-memcpy f m d s xs apart h lt = (
  copied,
  IsString-move m (memcpy m d s (length xs + 1)) s d xs
      (λ i le. ground (arith, memcpy_lem m d s (length xs + 1) (d + i) apart)) h,
  λ q out. ground (arith, memcpy_lem m d s (length xs + 1) q apart),
)
  where
    here : IsString m (s + 0) xs
    here = rw add-zero h

    copied : strcpy_loop f m d s ≡ some (memcpy_loop (length xs + 1) m d s 0)
    copied =
        simp add-zero at
          (strcpy_loop-memcpy_loop f m d s 0 xs (Apart-le _ _ d s (omega arith) apart) here lt)

strncpy_loop-outside :
    (k : ℕ) (m : Memory) (d s i q : ℕ)
    → (q < d + i) ⊎ (d + i + k ≤ q)
    → strncpy_loop k m d s i q ≡ m q
unfolding strncpy_loop
strncpy_loop-outside zero m d s i q out = refl
strncpy_loop-outside (suc k) m d s i q out = elim (Bool-cases (m (s + i) == 0)) [
  | inl e ↦ rw (strncpy_loop, e) refl
  | inr e ↦
      let m1 = poke m (d + i) (m (s + i)) in
      let here : m1 q ≡ m q = elim out [ inl h ↦ ground (arith, h) | inr h ↦ ground (arith, h) ] in
      let out' : (q < d + (i + 1)) ⊎ (d + (i + 1) + k ≤ q) = elim out [
        | inl h ↦ inl (omega arith)
        | inr h ↦ inr (omega arith)
      ] in
      rw (strncpy_loop, e) (strncpy_loop-outside k m1 d s (i + 1) q out' ∙ here)
]

-- `strncpy` writes to the `max` bytes of its destination only.
pub strncpy-outside :
    (m : Memory) (d s max q : ℕ) → (q < d) ⊎ (d + max ≤ q) → strncpy m d s max q ≡ m q
unfolding strncpy
strncpy-outside m d s max q out =
    strncpy_loop-outside max m d s 0 q
      (elim out [ inl h ↦ inl (omega arith) | inr h ↦ inr (omega arith) ])

memset_loop_lem :
    (k : ℕ) (m : Memory) (p v i q : ℕ)
    → memset_loop k m p v i q ≡ (if leb (p + i) q && ltb q (p + i + k) then v % 256 else m q)
unfolding memset_loop
memset_loop_lem zero m p v i q = ground arith
memset_loop_lem (suc k) m p v i q =
    ground (arith, memset_loop_lem k (poke m (p + i) (v % 256)) p v (i + 1) q)

-- `memset` fills exactly the `n` bytes.
pub memset_lem :
    (m : Memory) (p v n q : ℕ)
    → memset m p v n q ≡ (if leb p q && ltb q (p + n) then v % 256 else m q)
unfolding memset
memset_lem m p v n q = ground (arith, memset_loop_lem n m p v 0 q)
