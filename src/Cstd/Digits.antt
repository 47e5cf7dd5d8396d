-- ===== src/Cstd/Digits.antt =====
-- Positional notation: the digits that the number printers must produce, most significant first.
use native.Mathlib.Nat.{pow-zero, pow-suc, mod-lt, div-add-mod, div-lt_iff_lt-mul}
use frosk_current.Prelude.{
  ℕ, zero, suc, ◌+◌, ◌-◌, ◌*◌, ltb, if◌then◌else◌, ◌/◌, ◌%◌, ◌^◌, ◌<◌, ◌≡◌, List, [], ◌∷◌, arith,
  ap, ◌∙◌, refl, length,
}

unfoldable pub digits : (r k v : ℕ) → List ℕ
digits r zero v = []
digits r (suc k) v = v / r ^ k ∷ digits r k (v % r ^ k)

-- the number that digits stand for, read from the left
unfoldable pub value : (r acc : ℕ) → List ℕ → ℕ
value r acc [] = acc
value r acc (d ∷ ds) = value r (acc * r + d) ds

abbrev pub AllBelow : ℕ → List ℕ → Type 0
AllBelow r [] = Unit
AllBelow r (d ∷ ds) = (d < r) × AllBelow r ds

pub pow-pos : (r k : ℕ) → 0 < r → 0 < r ^ k
pow-pos r zero h = omega (arith, pow-zero r)
pow-pos r (suc k) h = rw pow-suc (grind (arith, pow-pos r k h))

pub value-digits :
    (r k v acc : ℕ) → 0 < r → v < r ^ k → value r acc (digits r k v) ≡ acc * r ^ k + v
unfolding value digits
value-digits r zero v acc hr h = omega (arith, pow-zero r, ap (λ t. acc * t) (pow-zero r))
value-digits r (suc k) v acc hr h =
    value-digits r k (v % r ^ k) (acc * r + v / r ^ k) hr (mod-lt _ (pow-pos r k hr)) ∙ step
  where
    step : (acc * r + v / r ^ k) * r ^ k + v % r ^ k ≡ acc * r ^ suc k + v
    step = omega (arith, div-add-mod v (r ^ k), ap (λ t. acc * t) (pow-suc r k))

pub digits-AllBelow : (r k v : ℕ) → 0 < r → v < r ^ k → AllBelow r (digits r k v)
unfolding digits
digits-AllBelow r zero v hr h = tt
digits-AllBelow r (suc k) v hr h = (
  (div-lt_iff_lt-mul (pow-pos r k hr)).1 (omega (arith, pow-suc r k)),
  digits-AllBelow r k (v % r ^ k) hr (mod-lt _ (pow-pos r k hr)),
)

pub length-digits : (r k v : ℕ) → length (digits r k v) ≡ k
unfolding digits
length-digits r zero v = refl
length-digits r (suc k) v = omega (arith, length-digits r k (v % r ^ k))

-- the character that is written for a digit: '0' to '9', and letters from `letter_a` on
abbrev pub numeral : (letter_a d : ℕ) → ℕ
numeral letter_a d = if ltb d 10 then b'0' + d else letter_a + (d - 10)

abbrev pub numerals : (letter_a : ℕ) → List ℕ → List ℕ
numerals letter_a [] = []
numerals letter_a (d ∷ ds) = numeral letter_a d ∷ numerals letter_a ds
