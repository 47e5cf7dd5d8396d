-- ===== src/Cstd/Malloc/Fit.antt =====
-- What `malloc` does, on lists of free chunks: first fit.
use mathlib.Core.Option.{bind}
use frosk_current.Prelude.{
  ℕ, ◌+◌, ◌-◌, ◌≤◌, ◌<◌, ◌≡◌, Bool, true, false, ◌&&◌, ◌||◌, Option, none, some, List, [], ◌∷◌,
  ◌++◌, refl, ap, arith, ltb, leb, if◌then◌else◌, Bool-cases, inl, inr,
}

-- a free chunk: its header's address, and the number of bytes behind the header
pub record Free : Type 0 where
  pub at : ℕ
  pub size : ℕ

-- what is left of a chunk behind a block of `n` bytes
abbrev pub split : Free → ℕ → Free
split c n = record { at = c.at + 16 + n; size = c.size - n - 16 }

-- The chunk that serves `n` bytes, and the chunks that stay free. A rest that could hold no byte
-- goes with the block.
unfoldable pub fit : ℕ → List Free → Option (ℕ × List Free)
fit n [] = none
fit n (c ∷ cs) =
    if leb n c.size
    then some (c.at, if leb c.size (n + 16) then cs else split c n ∷ cs)
    else bind (fit n cs) (λ (p, rest). some (p, c ∷ rest))

-- The chunks are sorted by address and do not overlap, between `lo` and `hi`.
abbrev pub Ordered : ℕ → ℕ → List Free → Type 0
Ordered lo hi [] = lo ≤ hi
Ordered lo hi (c ∷ cs) = (lo ≤ c.at) × Ordered (c.at + 16 + c.size) hi cs

-- the addresses that belong to a chunk, its header included
abbrev pub covers : List Free → ℕ → Bool
covers [] q = false
covers (c ∷ cs) q = (leb c.at q && ltb q (c.at + 16 + c.size)) || covers cs q

pub Ordered-weaken :
    (lo lo' hi : ℕ) (xs : List Free) → lo ≤ lo' → Ordered lo' hi xs → Ordered lo hi xs
Ordered-weaken lo lo' hi [] le o = omega arith
Ordered-weaken lo lo' hi (c ∷ cs) le o = (omega arith, o.1)

-- below the first chunk nothing is covered
covers-below :
    (lo hi : ℕ) (xs : List Free) (q : ℕ) → Ordered lo hi xs → q < lo → covers xs q ≡ false
covers-below lo hi [] q o lt = ground arith
covers-below lo hi (c ∷ cs) q o lt = ground (arith, covers-below (c.at + 16 + c.size) hi cs q o.1)

Ordered-le : (lo hi : ℕ) (xs : List Free) → Ordered lo hi xs → lo ≤ hi
Ordered-le lo hi [] o = o
Ordered-le lo hi (c ∷ cs) o = omega (arith, Ordered-le (c.at + 16 + c.size) hi cs o.1)

-- Every chunk is too small for `n` bytes.
abbrev pub TooSmall : ℕ → List Free → Type 0
TooSmall n [] = Unit
TooSmall n (c ∷ cs) = (c.size < n) × TooSmall n cs

-- the addresses of a block of `n` bytes, with its header at `p`
abbrev pub block : ℕ → ℕ → ℕ → Bool
block p n q = leb p q && ltb q (p + 16 + n)

-- What first fit promises. The block lies inside what was free and outside what stays free; what
-- stays free was free, and is again sorted and without overlap.
pub record IsServed (n lo hi : ℕ) (xs : List Free) (p : ℕ) (rest : List Free) : Type 0 where
  pub low : lo ≤ p
  pub sorted : Ordered lo hi rest
  pub was_free : (q : ℕ) → block p n q ≡ true → covers xs q ≡ true
  pub apart : (q : ℕ) → block p n q ≡ true → covers rest q ≡ false
  pub kept : (q : ℕ) → covers rest q ≡ true → covers xs q ≡ true

abbrev pub Promise : ℕ → ℕ → ℕ → List Free → Option (ℕ × List Free) → Type 0
Promise n lo hi xs none = TooSmall n xs
Promise n lo hi xs (some (p, rest)) = IsServed n lo hi xs p rest

Promise-here :
    (n lo hi : ℕ) (c : Free) (cs : List Free)
    → Ordered lo hi (c ∷ cs)
    → n ≤ c.size
    → IsServed n lo hi (c ∷ cs) c.at (if leb c.size (n + 16) then cs else split c n ∷ cs)
Promise-here n lo hi c cs o enough = elim (Bool-cases (leb c.size (n + 16))) [
  | inl whole ↦ rw whole (record {
    low = o.0;
    sorted = Ordered-weaken lo (c.at + 16 + c.size) hi cs (omega arith) o.1;
    was_free = λ q b. ground arith;
    apart = λ q b. ground (arith, covers-below (c.at + 16 + c.size) hi cs q o.1);
    kept = λ q b. ground arith;
  })
  | inr divided ↦ rw divided (record {
    low = o.0;
    sorted = (
      omega arith,
      Ordered-weaken (c.at + 16 + n + 16 + (c.size - n - 16)) (c.at + 16 + c.size) hi cs
          (ground arith) o.1,
    );
    was_free = λ q b. ground arith;
    apart = λ q b. ground (arith, covers-below (c.at + 16 + c.size) hi cs q o.1);
    kept = λ q b. ground arith;
  })
]

Promise-later :
    (n lo hi : ℕ) (c : Free) (cs : List Free) (r : Option (ℕ × List Free))
    → lo ≤ c.at
    → c.size < n
    → Promise n (c.at + 16 + c.size) hi cs r
    → Promise n lo hi (c ∷ cs) (bind r (λ (p, rest). some (p, c ∷ rest)))
unfolding bind
Promise-later n lo hi c cs none le small h = (small, h)
Promise-later n lo hi c cs (some (p, rest)) le small h = record {
  low = omega (arith, h.low);
  sorted = (le, h.sorted);
  was_free = λ q b. ground (arith, h.was_free q);
  apart = λ q b. ground (arith, h.apart q, h.low);
  kept = λ q b. ground (arith, h.kept q);
}

-- First fit keeps its promise; it refuses only if every chunk is too small.
pub fit-Promise : (n lo hi : ℕ) (xs : List Free) → Ordered lo hi xs → Promise n lo hi xs (fit n xs)
unfolding fit
fit-Promise n lo hi [] o = tt
fit-Promise n lo hi (c ∷ cs) o = elim (Bool-cases (leb n c.size)) [
  | inl enough ↦ rw enough (Promise-here n lo hi c cs o (ground arith))
  | inr small ↦ rw small (
      Promise-later n lo hi c cs (fit n cs) o.0 (ground arith)
        (fit-Promise n (c.at + 16 + c.size) hi cs o.1))
]

-- The first chunk that is large enough serves `n` bytes: the chunks before it are too small, and they stay free, as
-- do the chunks behind it and, if it could hold a byte, the rest of it.
pub record IsFirst (n : ℕ) (xs : List Free) (p : ℕ) (rest : List Free) : Type 0 where
  pub before : List Free
  pub chosen : Free
  pub behind : List Free
  pub free : xs ≡ before ++ (chosen ∷ behind)
  pub too_small : TooSmall n before
  pub enough : n ≤ chosen.size
  pub place : p ≡ chosen.at
  pub whole : chosen.size ≤ n + 16 → rest ≡ before ++ behind
  pub divided : n + 16 < chosen.size → rest ≡ before ++ (split chosen n ∷ behind)

abbrev pub First : ℕ → List Free → Option (ℕ × List Free) → Type 0
First n xs none = TooSmall n xs
First n xs (some (p, rest)) = IsFirst n xs p rest

First-here :
    (n : ℕ) (c : Free) (cs : List Free)
    → n ≤ c.size
    → IsFirst n (c ∷ cs) c.at (if leb c.size (n + 16) then cs else split c n ∷ cs)
First-here n c cs enough = record {
  before = [];
  chosen = c;
  behind = cs;
  free = refl;
  too_small = tt;
  enough = enough;
  place = refl;
  whole = λ le. let h : leb c.size (n + 16) ≡ true = ground (arith, le) in rw h refl;
  divided = λ lt. let h : leb c.size (n + 16) ≡ false = ground (arith, lt) in rw h refl;
}

First-later :
    (n : ℕ) (c : Free) (cs : List Free) (r : Option (ℕ × List Free))
    → c.size < n
    → First n cs r
    → First n (c ∷ cs) (bind r (λ (p, rest). some (p, c ∷ rest)))
unfolding bind
First-later n c cs none small h = (small, h)
First-later n c cs (some (p, rest)) small h = record {
  before = c ∷ h.before;
  chosen = h.chosen;
  behind = h.behind;
  free = ap (λ l. c ∷ l) h.free;
  too_small = (small, h.too_small);
  enough = h.enough;
  place = h.place;
  whole = λ le. ap (λ l. c ∷ l) (h.whole le);
  divided = λ lt. ap (λ l. c ∷ l) (h.divided lt);
}

pub fit-First : (n : ℕ) (xs : List Free) → First n xs (fit n xs)
unfolding fit
fit-First n [] = tt
fit-First n (c ∷ cs) = elim (Bool-cases (leb n c.size)) [
  | inl enough ↦ rw enough (First-here n c cs (ground arith))
  | inr small ↦ rw small (First-later n c cs (fit n cs) (ground arith) (fit-First n cs))
]
