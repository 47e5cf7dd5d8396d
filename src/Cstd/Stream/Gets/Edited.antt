-- ===== src/Cstd/Stream/Gets/Edited.antt =====
-- What the loop of `fgets` over the buffer leaves.
use mathlib.Core.Path.{subst}
use frosk_current.Prelude.{
  ℕ, suc, ◌+◌, ◌-◌, ◌<◌, ◌≤◌, ◌≡◌, ◌⊎◌, inl, inr, Bool-cases, true, false, List, [], ◌∷◌, ◌++◌,
  ◌==◌, ltb, ◌||◌, if◌then◌else◌, arith, refl, ap, ◌∙◌, length,
}
use frosk_current.Prelude.Memory.{Memory, poke}
use frosk_current.Cstd.Stream.Gets.{Taken, line, more, take_chars}
use frosk_current.Cstd.Stream.Gets.Line.{rubbed_out, edited, IsPlain, Stands, Stands-poke}

-- one character that does not end the line
taken : (c max : ℕ) → (c == b'\n') ≡ false → 0 < max → (c == b'\n' || max == 0) ≡ false
taken c max plain room = let e : (max == 0) ≡ false = ground arith in rw (plain, e) refl

-- What the loop over characters that do not end a line leaves: the line in memory, and no other change but in the
-- first `n` bytes behind `b`.
pub record IsTaken (cs : List ℕ) (m : Memory) (b buf max n : ℕ) (rev : List ℕ) : Type 0 where
  pub memory : Memory
  pub left : ℕ
  pub run : take_chars cs m b buf max ≡ more memory (b + length rev) left
  pub stands : Stands memory b rev
  pub sum : left + length rev ≡ n
  pub outside : (q : ℕ) → (q < b) ⊎ (b + n ≤ q) → memory q ≡ m q

-- One more character in front, after which the loop goes on from `m1`, `buf1` and `max1`.
IsTaken-cons :
    (c : ℕ) (cs : List ℕ) (m m1 : Memory) (b buf buf1 max max1 n : ℕ) (rev : List ℕ)
    → take_chars (c ∷ cs) m b buf max ≡ take_chars cs m1 b buf1 max1
    → ((q : ℕ) → (q < b) ⊎ (b + n ≤ q) → m1 q ≡ m q)
    → IsTaken cs m1 b buf1 max1 n rev
    → IsTaken (c ∷ cs) m b buf max n rev
IsTaken-cons c cs m m1 b buf buf1 max max1 n rev step same t = record {
  memory = t.memory;
  left = t.left;
  run = step ∙ t.run;
  stands = t.stands;
  sum = t.sum;
  outside = λ q out. t.outside q out ∙ same q out;
}

poke-outside :
    (m : Memory) (b n p v q : ℕ) → b ≤ p → p < b + n → (q < b) ⊎ (b + n ≤ q) → poke m p v q ≡ m q
poke-outside m b n p v q lo hi out = elim out [
  | inl h ↦ ground (arith, h)
  | inr h ↦ ground (arith, h)
]

take_chars-typed :
    (c : ℕ) (cs : List ℕ) (m : Memory) (b max : ℕ) (rev : List ℕ)
    → (c == b'\n') ≡ false
    → (c == 8) ≡ false
    → 0 < max
    → take_chars (c ∷ cs) m b (b + length rev) max
      ≡ take_chars cs (poke m (b + length rev) c) b (b + suc (length rev)) (max - 1)
unfolding take_chars
take_chars-typed c cs m b max rev plain key room =
    let place : b + length rev + 1 ≡ b + suc (length rev) = omega arith in
    rw (take_chars, taken c max plain room, key)
      (ap (λ k. take_chars cs (poke m (b + length rev) c) b k (max - 1)) place)

take_chars-rubbed_out :
    (c : ℕ) (cs : List ℕ) (m : Memory) (b max d : ℕ) (rev : List ℕ)
    → (c == b'\n') ≡ false
    → (c == 8) ≡ true
    → 0 < max
    → take_chars (c ∷ cs) m b (b + suc (length rev)) max
      ≡ take_chars cs (poke m (b + suc (length rev)) c) b (b + length rev) (max + 1)
unfolding take_chars
take_chars-rubbed_out c cs m b max d rev plain key room =
    let place : b + suc (length rev) - 1 ≡ b + length rev = omega arith in
    let some_left : ltb b (b + suc (length rev)) ≡ true = ground arith in
    rw (take_chars, taken c max plain room, key, some_left)
      (ap (λ k. take_chars cs (poke m (b + suc (length rev)) c) b k (max + 1)) place)

take_chars-at_begin :
    (c : ℕ) (cs : List ℕ) (m : Memory) (b max : ℕ)
    → (c == b'\n') ≡ false
    → (c == 8) ≡ true
    → 0 < max
    → take_chars (c ∷ cs) m b (b + 0) max ≡ take_chars cs (poke m (b + 0) c) b (b + 0) max
unfolding take_chars
take_chars-at_begin c cs m b max plain key room =
    let none_left : ltb b (b + 0) ≡ false = ground arith in
    rw (take_chars, taken c max plain room, key, none_left) refl

IsTaken-typed :
    (c : ℕ) (cs : List ℕ) (m : Memory) (b max n : ℕ) (rev : List ℕ)
    → (c == b'\n') ≡ false
    → (c == 8) ≡ false
    → max + length rev ≡ n
    → 0 < max
    → IsTaken cs
        (poke m (b + length rev) c)
        b
        (b + suc (length rev))
        (max - 1)
        n
        (edited (c ∷ rev) cs)
    → IsTaken (c ∷ cs) m b (b + length rev) max n (edited rev (c ∷ cs))
IsTaken-typed c cs m b max n rev plain key sum room rest =
    let next : (c ∷ rev) ≡ (if c == 8 then rubbed_out rev else c ∷ rev) = rw key refl in
    subst (λ z. IsTaken (c ∷ cs) m b (b + length rev) max n (edited z cs)) next
      (IsTaken-cons c cs m (poke m (b + length rev) c) b (b + length rev) (b + suc (length rev)) max
        (max - 1) n (edited (c ∷ rev) cs) (take_chars-typed c cs m b max rev plain key room)
        (λ q out. poke-outside m b n (b + length rev) c q (omega arith) (omega arith) out) rest)

IsTaken-rubbed_out :
    (c : ℕ) (cs : List ℕ) (m : Memory) (b max n d : ℕ) (rev : List ℕ)
    → (c == b'\n') ≡ false
    → (c == 8) ≡ true
    → max + suc (length rev) ≡ n
    → 0 < max
    → IsTaken cs (poke m (b + suc (length rev)) c) b (b + length rev) (max + 1) n (edited rev cs)
    → IsTaken (c ∷ cs) m b (b + suc (length rev)) max n (edited (d ∷ rev) (c ∷ cs))
IsTaken-rubbed_out c cs m b max n d rev plain key sum room rest =
    let next : rev ≡ (if c == 8 then rev else c ∷ d ∷ rev) = rw key refl in
    subst (λ z. IsTaken (c ∷ cs) m b (b + suc (length rev)) max n (edited z cs)) next
      (IsTaken-cons c cs m (poke m (b + suc (length rev)) c) b (b + suc (length rev))
        (b + length rev) max (max + 1) n (edited rev cs)
        (take_chars-rubbed_out c cs m b max d rev plain key room)
        (λ q out. poke-outside m b n (b + suc (length rev)) c q (omega arith) (omega arith) out)
        rest)

pub take_chars-edited :
    (cs : List ℕ) (m : Memory) (b max n : ℕ) (rev : List ℕ)
    → IsPlain cs
    → Stands m b rev
    → max + length rev ≡ n
    → length rev + length cs ≤ n
    → IsTaken cs m b (b + length rev) max n (edited rev cs)
unfolding take_chars
take_chars-edited [] m b max n rev plain stands sum fits = record {
  memory = m;
  left = max;
  run = refl;
  stands = stands;
  sum = sum;
  outside = λ q out. refl;
}
take_chars-edited (c ∷ cs) m b max n [] (p, plain) stands sum fits =
    let m1 = poke m (b + 0) c in
    elim (Bool-cases (c == 8)) [
      | inl e ↦
          let next : [] ≡ (if c == 8 then [] else c ∷ []) = rw e refl in
          let rest = take_chars-edited cs m1 b max n [] plain (omega arith) sum (omega arith) in
          subst (λ z. IsTaken (c ∷ cs) m b (b + 0) max n (edited z cs)) next
            (IsTaken-cons c cs m m1 b (b + 0) (b + 0) max max n (edited [] cs)
              (take_chars-at_begin c cs m b max p e (omega arith))
              (λ q out. poke-outside m b n (b + 0) c q (omega arith) (omega arith) out) rest)
      | inr e ↦ IsTaken-typed c cs m b max n [] p e sum (omega arith) (
          take_chars-edited cs m1 b (max - 1) n (c ∷ []) plain (ground arith, omega arith)
            (omega arith) (omega arith))
    ]
take_chars-edited (c ∷ cs) m b max n (d ∷ rev) (p, plain) (here, stands) sum fits =
    let m1 = poke m (b + suc (length rev)) c in
    elim (Bool-cases (c == 8)) [
      | inl e ↦ IsTaken-rubbed_out c cs m b max n d rev p e sum (omega arith) (
          take_chars-edited cs m1 b (max + 1) n rev plain
            (Stands-poke m b (b + suc (length rev)) c rev (omega arith) stands) (omega arith)
            (omega arith))
      | inr e ↦ IsTaken-typed c cs m b max n (d ∷ rev) p e sum (omega arith) (
          take_chars-edited cs m1 b (max - 1) n (c ∷ d ∷ rev) plain
            (
              ground arith,
              Stands-poke m b (b + suc (length rev)) c (d ∷ rev) (omega arith) (here, stands),
            )
            (omega arith) (omega arith))
    ]

-- What follows after the loop over the first characters.
abbrev pub resume : (cs : List ℕ) (b : ℕ) → Taken → Taken
resume cs b (line m) = line m
resume cs b (more m buf max) = take_chars cs m b buf max

pub take_chars-append :
    (cs ds : List ℕ) (m : Memory) (b buf max : ℕ)
    → take_chars (cs ++ ds) m b buf max ≡ resume ds b (take_chars cs m b buf max)
unfolding take_chars
take_chars-append [] ds m b buf max = refl
take_chars-append (c ∷ cs) ds m b buf max = elim (Bool-cases (c == b'\n' || max == 0)) [
  | inl e ↦ rw (take_chars, e) refl
  | inr e ↦ elim (Bool-cases (c == 8)) [
    | inl key ↦ elim (Bool-cases (ltb b buf)) [
      | inl h ↦
          rw (take_chars, e, key, h) (take_chars-append cs ds (poke m buf c) b (buf - 1) (max + 1))
      | inr h ↦ rw (take_chars, e, key, h) (take_chars-append cs ds (poke m buf c) b buf max)
    ]
    | inr key ↦
        rw (take_chars, e, key) (take_chars-append cs ds (poke m buf c) b (buf + 1) (max - 1))
  ]
]

pub take_chars-newline :
    (ds : List ℕ) (m : Memory) (b buf max : ℕ)
    → take_chars (b'\n' ∷ ds) m b buf max ≡ line (poke (poke m buf b'\n') (buf + 1) 0)
unfolding take_chars
take_chars-newline ds m b buf max = refl
