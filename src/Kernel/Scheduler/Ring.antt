-- ===== src/Kernel/Scheduler/Ring.antt =====
-- A circular list, by the address of the next element.
use frosk_current.Prelude.{ℕ, ◌<◌, ◌≡◌, List, [], ◌∷◌, ◌==◌, arith, refl, sym, ◌∙◌, false, ap}

-- from `a` the elements follow, and then `b`
abbrev pub Follow : (next : ℕ → ℕ) → (a : ℕ) → List ℕ → (b : ℕ) → Type 0
Follow next a [] b = next a ≡ b
Follow next a (x ∷ xs) b = (next a ≡ x) × Follow next x xs b

-- the address is not in the list
abbrev pub IsOutside : ℕ → List ℕ → Type 0
IsOutside q [] = Unit
IsOutside q (x ∷ xs) = ((q == x) ≡ false) × IsOutside q xs

-- a circular list that is entered at `head`, which is null if it is empty
abbrev pub IsRing : (next : ℕ → ℕ) → (head : ℕ) → List ℕ → Type 0
IsRing next head [] = head ≡ 0
IsRing next head (x ∷ xs) = (head ≡ x) × (0 < x) × IsOutside x xs × Follow next x xs x

-- the new element comes behind the first one
abbrev pub ring_insert : ℕ → List ℕ → List ℕ
ring_insert t [] = t ∷ []
ring_insert t (x ∷ xs) = x ∷ t ∷ xs

-- `next'` differs from `next` at `x` and `t` at most
abbrev pub IsKept : (next next' : ℕ → ℕ) → (x t : ℕ) → Type 0
IsKept next next' x t = (q : ℕ) → (x == q) ≡ false → (t == q) ≡ false → next' q ≡ next q

Follow-IsKept :
    (next next' : ℕ → ℕ) (x t a b : ℕ) (xs : List ℕ)
    → IsKept next next' x t
    → Follow next a xs b
    → (x == a) ≡ false
    → (t == a) ≡ false
    → IsOutside x xs
    → IsOutside t xs
    → Follow next' a xs b
Follow-IsKept next next' x t a b [] kept follow ha ka hs ks = kept a ha ka ∙ follow
Follow-IsKept next next' x t a b (y ∷ ys) kept (here, follow) ha ka (hy, hs) (ky, ks) =
    (kept a ha ka ∙ here, Follow-IsKept next next' x t y b ys kept follow hy ky hs ks)

pub IsRing-single : (next' : ℕ → ℕ) (t : ℕ) → 0 < t → next' t ≡ t → IsRing next' t (t ∷ [])
IsRing-single next' t real here = (refl, real, tt, here)

-- A new element behind the head of a ring that is not empty.
pub IsRing-insert :
    (next next' : ℕ → ℕ) (head t x : ℕ) (xs : List ℕ)
    → IsRing next head (x ∷ xs)
    → IsOutside t (x ∷ xs)
    → next' head ≡ t
    → next' t ≡ next head
    → IsKept next next' head t
    → IsRing next' head (ring_insert t (x ∷ xs))
IsRing-insert next next' head t x [] (e, real, out, follow) (new, news) at_head at_new kept =
    (e, real, (ground (arith, new), out), (ap next' (sym e) ∙ at_head, at_new ∙ ap next e ∙ follow))
IsRing-insert next next' head t x (y ∷ ys) (e, real, (hy, out), (here, follow)) (new, (ky, news))
      at_head at_new kept =
    let kept' : IsKept next next' x t = λ q hx ht. kept q (ap (λ z. z == q) e ∙ hx) ht in
    (
      e,
      real,
      (ground (arith, new), (hy, out)),
      (
        ap next' (sym e) ∙ at_head,
        (
          at_new ∙ ap next e ∙ here,
          Follow-IsKept next next' x t y x ys kept' follow hy ky out news,
        ),
      ),
    )

Follow-pointwise :
    (next next' : ℕ → ℕ) (a b : ℕ) (xs : List ℕ)
    → ((q : ℕ) → next' q ≡ next q)
    → Follow next a xs b
    → Follow next' a xs b
Follow-pointwise next next' a b [] h follow = h a ∙ follow
Follow-pointwise next next' a b (x ∷ xs) h (here, follow) =
    (h a ∙ here, Follow-pointwise next next' x b xs h follow)

pub IsRing-pointwise :
    (next next' : ℕ → ℕ) (head : ℕ) (xs : List ℕ)
    → ((q : ℕ) → next' q ≡ next q)
    → IsRing next head xs
    → IsRing next' head xs
IsRing-pointwise next next' head [] h ring = ring
IsRing-pointwise next next' head (x ∷ xs) h (e, real, out, follow) =
    (e, real, out, Follow-pointwise next next' x x xs h follow)
