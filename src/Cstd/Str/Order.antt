-- ===== src/Cstd/Str/Order.antt =====
-- `strcmp` decides a total order on strings.
use mathlib.Core.Option.{some-injective}
use frosk_current.Prelude.{
  ℕ, zero, suc, ◌+◌, ◌<◌, ◌≡◌, ◌↔◌, ◌⊎◌, inl, inr, refl, sym, ap, ◌∙◌, some, List, [], ◌∷◌, arith,
  length, ◌==◌, if◌then◌else◌,
}
use frosk_current.Prelude.Int.{ℤ, pos, negsuc}
use frosk_current.Prelude.Memory.{Memory, IsString}
use frosk_current.Cstd.Str.{strcmp_loop, strcmp, diff_sign, end_sign}

-- the order of the strings: by the first difference, the terminator counting as a character
unfoldable pub order : List ℕ → List ℕ → ℤ
order [] [] = pos 0
order [] (y ∷ ys) = end_sign 0 y
order (x ∷ xs) [] = end_sign x 0
order (x ∷ xs) (y ∷ ys) = if x == y then order xs ys else diff_sign x y

-- what a string consists of: bytes other than zero
abbrev pub Chars : List ℕ → Type 0
Chars [] = Unit
Chars (x ∷ xs) = (0 < x) × (x < 256) × Chars xs

pub IsString-Chars : (m : Memory) (a : ℕ) (xs : List ℕ) → IsString m a xs → Chars xs
IsString-Chars m a [] h = tt
IsString-Chars m a (x ∷ xs) h = (h.1, h.2, IsString-Chars m (a + 1) xs h.3)

strcmp_loop-order :
    (f : ℕ) (m : Memory) (a b : ℕ) (xs ys : List ℕ)
    → IsString m a xs
    → IsString m b ys
    → length xs < f
    → strcmp_loop f m a b ≡ some (order xs ys)
unfolding strcmp_loop order
strcmp_loop-order zero m a b xs ys hx hy lt = absurd (omega arith)
strcmp_loop-order (suc f) m a b [] [] hx hy lt = ground arith
strcmp_loop-order (suc f) m a b [] (y ∷ ys) hx hy lt = ground arith
strcmp_loop-order (suc f) m a b (x ∷ xs) [] hx hy lt = ground arith
strcmp_loop-order (suc f) m a b (x ∷ xs) (y ∷ ys) hx hy lt =
    ground (arith, strcmp_loop-order f m (a + 1) (b + 1) xs ys)

-- with fuel for the first string, `strcmp` returns the order of the two strings
strcmp-order :
    (f : ℕ) (m : Memory) (a b : ℕ) (xs ys : List ℕ)
    → IsString m a xs
    → IsString m b ys
    → length xs < f
    → strcmp f m a b ≡ some (order xs ys)
unfolding strcmp
strcmp-order f m a b xs ys hx hy lt = strcmp_loop-order f m a b xs ys hx hy lt

pub order_refl : (xs : List ℕ) → order xs xs ≡ pos 0
unfolding order
order_refl [] = refl
order_refl (x ∷ xs) = ground (arith, order_refl xs)

pub eq_of_order : (xs ys : List ℕ) → Chars xs → Chars ys → order xs ys ≡ pos 0 → xs ≡ ys
unfolding order
eq_of_order [] [] hx hy h = refl
eq_of_order [] (y ∷ ys) hx hy h = absurd (ground arith)
eq_of_order (x ∷ xs) [] hx hy h = absurd (ground arith)
eq_of_order (x ∷ xs) (y ∷ ys) hx hy h = ground (arith, eq_of_order xs ys)

pub order_flip :
    (xs ys : List ℕ) → Chars xs → Chars ys → (order xs ys ≡ negsuc 0) ↔ (order ys xs ≡ pos 1)
unfolding order
order_flip [] [] hx hy = (λ h. ground arith, λ h. ground arith)
order_flip [] (y ∷ ys) hx hy = (λ h. ground arith, λ h. ground arith)
order_flip (x ∷ xs) [] hx hy = (λ h. ground arith, λ h. ground arith)
order_flip (x ∷ xs) (y ∷ ys) hx hy =
    (λ h. ground (arith, order_flip xs ys), λ h. ground (arith, order_flip xs ys))

order_trans :
    (xs ys zs : List ℕ)
    → Chars xs
    → Chars ys
    → Chars zs
    → order xs ys ≡ negsuc 0
    → order ys zs ≡ negsuc 0
    → order xs zs ≡ negsuc 0
unfolding order
order_trans [] [] zs hx hy hz h k = absurd (ground arith)
order_trans [] (y ∷ ys) [] hx hy hz h k = ground arith
order_trans [] (y ∷ ys) (z ∷ zs) hx hy hz h k = ground arith
order_trans (x ∷ xs) [] [] hx hy hz h k = ground arith
order_trans (x ∷ xs) [] (z ∷ zs) hx hy hz h k = ground arith
order_trans (x ∷ xs) (y ∷ ys) [] hx hy hz h k = ground arith
order_trans (x ∷ xs) (y ∷ ys) (z ∷ zs) hx hy hz h k = ground (arith, order_trans xs ys zs)

-- the values of `order`
order-values :
    (xs ys : List ℕ) → (order xs ys ≡ negsuc 0) ⊎ (order xs ys ≡ pos 0) ⊎ (order xs ys ≡ pos 1)
unfolding order
order-values [] [] = inr (inl refl)
order-values [] (y ∷ ys) = ground arith
order-values (x ∷ xs) [] = ground arith
order-values (x ∷ xs) (y ∷ ys) = ground (arith, order-values xs ys)

pub order_less : (xs ys : List ℕ) (k : ℕ) → order xs ys ≡ negsuc k → order xs ys ≡ negsuc 0
order_less xs ys k h = ground (arith, order-values xs ys)

pub order_more : (xs ys : List ℕ) (k : ℕ) → order xs ys ≡ pos (suc k) → order xs ys ≡ pos 1
order_more xs ys k h = ground (arith, order-values xs ys)

-- On two strings in memory `strcmp` returns 0 exactly if they are equal.
pub strcmp_zero_iff :
    (f : ℕ) (m : Memory) (a b : ℕ) (xs ys : List ℕ)
    → IsString m a xs
    → IsString m b ys
    → length xs < f
    → (strcmp f m a b ≡ some (pos 0)) ↔ (xs ≡ ys)
strcmp_zero_iff f m a b xs ys hx hy lt = (
  λ h.
      eq_of_order xs ys (IsString-Chars m a xs hx) (IsString-Chars m b ys hy)
        (some-injective _ _ (sym (strcmp-order f m a b xs ys hx hy lt) ∙ h)),
  λ e. strcmp-order f m a b xs ys hx hy lt ∙ ap some (ap (order xs) (sym e) ∙ order_refl xs),
)

-- On two strings in memory `strcmp` returns -1 one way round exactly if it returns 1 the other way.
pub strcmp_flip :
    (f : ℕ) (m : Memory) (a b : ℕ) (xs ys : List ℕ)
    → IsString m a xs
    → IsString m b ys
    → length xs < f
    → length ys < f
    → (strcmp f m a b ≡ some (negsuc 0)) ↔ (strcmp f m b a ≡ some (pos 1))
strcmp_flip f m a b xs ys hx hy lx ly = rw (strcmp-order f m a b xs ys hx hy lx) (
    rw (strcmp-order f m b a ys xs hy hx ly)
      (λ h. ap some (flip.0 (some-injective _ _ h)), λ h. ap some (flip.1 (some-injective _ _ h))))
  where
    flip : (order xs ys ≡ negsuc 0) ↔ (order ys xs ≡ pos 1)
    flip = order_flip xs ys (IsString-Chars m a xs hx) (IsString-Chars m b ys hy)

-- On three strings in memory the order of `strcmp` is transitive.
pub strcmp_trans :
    (f : ℕ) (m : Memory) (a b c : ℕ) (xs ys zs : List ℕ)
    → IsString m a xs
    → IsString m b ys
    → IsString m c zs
    → length xs < f
    → length ys < f
    → strcmp f m a b ≡ some (negsuc 0)
    → strcmp f m b c ≡ some (negsuc 0)
    → strcmp f m a c ≡ some (negsuc 0)
strcmp_trans f m a b c xs ys zs hx hy hz lx ly ab bc =
    strcmp-order f m a c xs zs hx hz lx
    ∙ ap some (
        order_trans xs ys zs (IsString-Chars m a xs hx) (IsString-Chars m b ys hy)
          (IsString-Chars m c zs hz)
          (some-injective _ _ (sym (strcmp-order f m a b xs ys hx hy lx) ∙ ab))
          (some-injective _ _ (sym (strcmp-order f m b c ys zs hy hz ly) ∙ bc)))
