-- ===== src/Cstd/Str/Compare.antt =====
-- `memcmp` and `strncmp`.
use frosk_current.Prelude.{
  ℕ, zero, suc, ◌+◌, ◌<◌, ◌≤◌, ◌≡◌, ◌≢◌, ◌↔◌, inl, inr, refl, arith, ◌==◌, Bool-cases,
}
use frosk_current.Prelude.Int.{pos}
use frosk_current.Prelude.Memory.{Memory}
use frosk_current.Cstd.Str.{strncmp_loop, strncmp, memcmp_loop, memcmp}

strncmp_loop-memcmp_loop :
    (k : ℕ) (m : Memory) (a b i : ℕ) → m a ≢ 0 → strncmp_loop k m a b i ≡ memcmp_loop k m a b i
unfolding strncmp_loop memcmp_loop
strncmp_loop-memcmp_loop zero m a b i h = ground arith
strncmp_loop-memcmp_loop (suc k) m a b i h =
    ground (arith, strncmp_loop-memcmp_loop k m a b (i + 1))

-- If the first string is not empty, `strncmp` compares all `size` bytes, also those behind the
-- terminators: it is `memcmp`.
pub strncmp-memcmp : (m : Memory) (a b size : ℕ) → m a ≢ 0 → strncmp m a b size ≡ memcmp m a b size
unfolding strncmp memcmp
strncmp-memcmp m a b size h = strncmp_loop-memcmp_loop size m a b 0 h

memcmp_loop_zero_iff :
    (k : ℕ) (m : Memory) (a b i : ℕ)
    → (memcmp_loop k m a b i ≡ pos 0) ↔ ((j : ℕ) → i ≤ j → j < i + k → m (a + j) ≡ m (b + j))
unfolding memcmp_loop
memcmp_loop_zero_iff zero m a b i = (λ h j lo hi. absurd (omega arith), λ h. refl)
memcmp_loop_zero_iff (suc k) m a b i = (
  λ h j lo hi. elim (Bool-cases (m (a + i) == m (b + i))) [
    | inl e ↦ ground (arith, (memcmp_loop_zero_iff k m a b (i + 1)).0 (rw (e, memcmp_loop) at h) j)
    | inr e ↦ absurd (ground arith)
  ],
  λ h. ground (
    arith,
    h i,
    (memcmp_loop_zero_iff k m a b (i + 1)).1 (λ j lo hi. h j (omega arith) (omega arith)),
  ),
)

-- `memcmp` returns 0 exactly when the `size` bytes agree.
pub memcmp_zero_iff :
    (m : Memory) (a b size : ℕ)
    → (memcmp m a b size ≡ pos 0) ↔ ((j : ℕ) → j < size → m (a + j) ≡ m (b + j))
unfolding memcmp
memcmp_zero_iff m a b size =
    let (fwd, bwd) = memcmp_loop_zero_iff size m a b 0 in
    (λ h j lt. fwd h j (omega arith) (omega arith), λ h. bwd (λ j lo hi. h j (omega arith)))
