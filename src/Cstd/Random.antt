-- ===== src/Cstd/Random.antt =====
-- `rand` and `srand` of `lib/cstd/src/stdlib.c`.
use native.Mathlib.Nat.{pow-suc, mul-mod_left, pow-zero, mul_assoc}
use frosk_current.Prelude.{ℕ, zero, suc, ◌+◌, ◌*◌, ◌/◌, ◌%◌, ◌^◌, ◌<◌, ◌≡◌, ◌∙◌, refl, ap, arith}

-- The new `rand_seed`, which is also the result.
pub rand : ℕ → ℕ
rand seed = let s1 = seed * 2 ^ 13 % 2 ^ 32 in let s2 = s1 / 2 ^ 17 in s2 * 2 ^ 5 % 2 ^ 32

-- `rand_seed` after `n` calls; `srand` sets it
pub rand_after : ℕ → ℕ → ℕ
rand_after zero seed = seed
rand_after (suc n) seed = rand (rand_after n seed)

rand-low : (seed : ℕ) → seed < 2 ^ 32 → rand seed ≡ 32 * (seed / 16 % 2 ^ 15)
unfolding rand
rand-low seed h = omega arith

rand-double : (a : ℕ) → rand (32 * (a % 2 ^ 15)) ≡ 32 * (a * 2 % 2 ^ 15)
unfolding rand
rand-double a = omega arith

rand_after-pow :
    (n seed : ℕ) → seed < 2 ^ 32 → rand_after (suc n) seed ≡ 32 * (seed / 16 * 2 ^ n % 2 ^ 15)
unfolding rand_after
rand_after-pow zero seed h = rw pow-zero (rand-low seed h ∙ omega arith)
rand_after-pow (suc n) seed h =
    ap rand (rand_after-pow n seed h)
    ∙ rand-double (seed / 16 * 2 ^ n)
    ∙ ap (λ t. 32 * (t % 2 ^ 15)) (omega (arith, ap (λ t. seed / 16 * t) (pow-suc 2 n)))

high-power : (n : ℕ) → (y : ℕ) × (2 ^ (15 + n) ≡ y * 2 ^ 15)
high-power zero = (1, refl)
high-power (suc n) =
    let (y, e) = high-power n in
    (y * 2, ap (λ t. 2 ^ t) shift ∙ pow-suc 2 (15 + n) ∙ omega (arith, e))
  where
    shift : 15 + suc n ≡ suc (15 + n)
    shift = omega arith

-- Whatever the seed, the sixteenth call of `rand` and every later one return 0.
pub rand_after-zero : (n seed : ℕ) → seed < 2 ^ 32 → rand_after (16 + n) seed ≡ 0
rand_after-zero n seed h =
    ap (λ t. rand_after t seed) shift ∙ rand_after-pow (15 + n) seed h ∙ gone (high-power n)
  where
    shift : 16 + n ≡ suc (15 + n)
    shift = omega arith

    gone : (y : ℕ) × (2 ^ (15 + n) ≡ y * 2 ^ 15) → 32 * (seed / 16 * 2 ^ (15 + n) % 2 ^ 15) ≡ 0
    gone (y, e) = rw e (rw (← mul_assoc (seed / 16) y (2 ^ 15)) (rw mul-mod_left refl))
