-- ===== src/Cstd/Stream/Gets/Line.antt =====
-- A line as it is typed, and in memory.
use frosk_current.Prelude.{
  ℕ, ◌+◌, ◌≤◌, ◌≡◌, inl, inr, Bool-cases, false, List, [], ◌∷◌, ◌++◌, ◌==◌, if◌then◌else◌, arith,
  refl, length,
}
use frosk_current.Prelude.Memory.{Memory, poke}

-- a line, its newest character first, without the newest one
abbrev pub rubbed_out : List ℕ → List ℕ
rubbed_out [] = []
rubbed_out (c ∷ cs) = cs

-- What is left of a line after more characters are typed: a backspace takes the newest character away.
abbrev pub edited : (rev : List ℕ) → List ℕ → List ℕ
edited rev [] = rev
edited rev (c ∷ cs) = let next = if c == 8 then rubbed_out rev else c ∷ rev in edited next cs

-- the characters of several messages and the begin of another one
abbrev pub typed : List (List ℕ) → List ℕ → List ℕ
typed [] last = last
typed (cs ∷ texts) last = cs ++ typed texts last

-- no character ends the line
abbrev pub IsPlain : List ℕ → Type 0
IsPlain [] = 0 ≤ 0
IsPlain (c ∷ cs) = ((c == b'\n') ≡ false) × IsPlain cs

-- The line stands in memory from `b` on, `rev` being its characters, the newest first.
abbrev pub Stands : Memory → (b : ℕ) → (rev : List ℕ) → Type 0
Stands m b [] = 0 ≤ 0
Stands m b (c ∷ rev) = (m (b + length rev) ≡ c) × Stands m b rev

pub Stands-poke :
    (m : Memory) (b p v : ℕ) (rev : List ℕ)
    → b + length rev ≤ p
    → Stands m b rev
    → Stands (poke m p v) b rev
Stands-poke m b p v [] above stands = stands
Stands-poke m b p v (c ∷ rev) above (here, stands) =
    (ground (arith, here, above), Stands-poke m b p v rev (omega arith) stands)

pub edited-length : (rev cs : List ℕ) → length (edited rev cs) ≤ length rev + length cs
edited-length rev [] = omega arith
edited-length [] (c ∷ cs) = elim (Bool-cases (c == 8)) [
  | inl e ↦ let h = edited-length [] cs in rw e (omega arith)
  | inr e ↦ let h = edited-length (c ∷ []) cs in rw e (omega arith)
]
edited-length (d ∷ rev) (c ∷ cs) = elim (Bool-cases (c == 8)) [
  | inl e ↦ let h = edited-length rev cs in rw e (omega arith)
  | inr e ↦ let h = edited-length (c ∷ d ∷ rev) cs in rw e (omega arith)
]

pub edited-append : (rev xs ys : List ℕ) → edited rev (xs ++ ys) ≡ edited (edited rev xs) ys
edited-append rev [] ys = refl
edited-append rev (c ∷ xs) ys = edited-append (if c == 8 then rubbed_out rev else c ∷ rev) xs ys

pub IsPlain-append : (xs ys : List ℕ) → IsPlain (xs ++ ys) → IsPlain xs × IsPlain ys
IsPlain-append [] ys plain = (omega arith, plain)
IsPlain-append (c ∷ xs) ys (p, plain) = let (l, r) = IsPlain-append xs ys plain in ((p, l), r)
