-- ===== src/Kernel/Uspawn/Words.antt =====
-- The bytes of a word in memory.
use frosk_current.Prelude.{
  ℕ, zero, suc, ◌+◌, ◌*◌, ◌/◌, ◌%◌, ◌<◌, ◌≤◌, ◌≡◌, ◌⊎◌, inl, inr, arith, refl, ◌∙◌,
}
use frosk_current.Prelude.Memory.{Memory, poke}
use frosk_current.Kernel.Uspawn.{put_bytes}

-- the word of `k` bytes at an address
pub get_bytes : (k : ℕ) → Memory → (a : ℕ) → ℕ
get_bytes zero m a = 0
get_bytes (suc k) m a = m a + 256 * get_bytes k m (a + 1)

abbrev pub bound : (k : ℕ) → ℕ
bound zero = 1
bound (suc k) = 256 * bound k

pub put_bytes-outside :
    (k : ℕ) (m : Memory) (a v q : ℕ) → (q < a) ⊎ (a + k ≤ q) → put_bytes k m a v q ≡ m q
unfolding put_bytes
put_bytes-outside zero m a v q out = refl
put_bytes-outside (suc k) m a v q out =
    let out' : (q < a + 1) ⊎ (a + 1 + k ≤ q) = elim out [
      | inl h ↦ inl (omega arith)
      | inr h ↦ inr (omega arith)
    ] in
    let here : poke m a (v % 256) q ≡ m q = elim out [
      | inl h ↦ ground (arith, h)
      | inr h ↦ ground (arith, h)
    ] in
    put_bytes-outside k (poke m a (v % 256)) (a + 1) (v / 256) q out' ∙ here

pub get_bytes-same :
    (k : ℕ) (m m' : Memory) (a : ℕ)
    → ((q : ℕ) → a ≤ q → q < a + k → m' q ≡ m q)
    → get_bytes k m' a ≡ get_bytes k m a
unfolding get_bytes
get_bytes-same zero m m' a same = refl
get_bytes-same (suc k) m m' a same =
    ground
      (arith, same a, get_bytes-same k m m' (a + 1) (λ q lo hi. same q (omega arith) (omega arith)))

pub get_bytes-put_bytes :
    (k : ℕ) (m : Memory) (a v : ℕ) → v < bound k → get_bytes k (put_bytes k m a v) a ≡ v
unfolding get_bytes put_bytes
get_bytes-put_bytes zero m a v small = omega arith
get_bytes-put_bytes (suc k) m a v small =
    let m1 = poke m a (v % 256) in
    let first : put_bytes k m1 (a + 1) (v / 256) a ≡ v % 256 =
      put_bytes-outside k m1 (a + 1) (v / 256) a (inl (omega arith)) ∙ ground arith in
    let rest = get_bytes-put_bytes k m1 (a + 1) (v / 256) (omega arith) in
    ground (arith, first, rest)
