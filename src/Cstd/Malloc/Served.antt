-- ===== src/Cstd/Malloc/Served.antt =====
-- What a call of `malloc` gives.
use mathlib.Core.Path.{subst}
use frosk_current.Prelude.{
  [], ◌∷◌, ◌⊎◌, inl, inr, sym, ◌-◌, true, ℕ, ◌+◌, ◌%◌, ◌^◌, ◌≤◌, ◌<◌, ◌≡◌, ◌≢◌, false, Option, none,
  some, List, arith, length, ◌==◌, refl,
}
use frosk_current.Cstd.Malloc.{Heap, malloc, setup_heap, align}
use frosk_current.Cstd.Malloc.Fit.{
  Free, fit, Ordered, TooSmall, IsServed, Promise, fit-Promise, IsFirst, First, fit-First,
}
use frosk_current.Cstd.Malloc.Chain.{Chain, Outcome, malloc_loop-Outcome}

-- `malloc` has taken a block: its header is at `p`, and `rest` is free.
pub record IsTaken (lo hi n : ℕ) (xs : List Free) (r : Option (ℕ × Heap)) : Type 0 where
  pub p : ℕ
  pub rest : List Free
  pub after : Heap
  pub run : r ≡ some (p + 16, after)
  pub chain : Chain after.chunk after.head rest
  pub first : IsFirst n xs p rest
  pub served : IsServed n lo hi xs p rest

-- the two ways in which a call ends: with the null pointer, or with a block
pub data Ended (h : Heap) (lo hi n : ℕ) (xs : List Free) (r : Option (ℕ × Heap)) : Type 0 where
  refused : TooSmall n xs → r ≡ some (0, h) → Ended h lo hi n xs r
  taken : IsTaken lo hi n xs r → Ended h lo hi n xs r

ended :
    (h : Heap) (lo hi n : ℕ) (xs : List Free) (served : Option (ℕ × List Free))
    (r : Option (ℕ × Heap))
    → Promise n lo hi xs served
    → First n xs served
    → Outcome h 0 lo served r
    → Ended h lo hi n xs r
ended h lo hi n xs none r small _ e = refused small e
ended h lo hi n xs (some (p, rest)) r ok first a = taken (record {
  p = p;
  rest = rest;
  after = a.after;
  run = a.run;
  chain = a.chain;
  first = first;
  served = ok;
})

pub align_lem :
    (size : ℕ)
    → size + 32 < 2 ^ 64
    → (size ≤ align size 16) × (align size 16 + 16 < 2 ^ 64) × (align size 16 % 16 ≡ 0)
align_lem size small = ground arith

pub setup_heap-same : (bottom : ℕ) (h : Heap) → h.head ≢ 0 → setup_heap bottom h ≡ h
unfolding setup_heap
setup_heap-same bottom h ne = let test : (h.head == 0) ≡ false = ground arith in rw test refl

-- the one chunk of a heap that has not been used, from `bottom` on
abbrev pub unused : (bottom : ℕ) → Free
unused bottom = record { at = align bottom 16; size = 0x400000000000 - 16 - bottom }

-- The free chunks before a call: those of the list in memory, or, at the first call, the whole heap.
abbrev pub AreFree : (bottom : ℕ) → Heap → List Free → Type 0
AreFree bottom h xs =
    ((h.head ≢ 0) × Chain h.chunk h.head xs)
    ⊎ ((h.head ≡ 0) × (0 < bottom) × (bottom + 16 ≤ 0x400000000000) × (xs ≡ unused bottom ∷ []))

setup_heap-Chain :
    (bottom : ℕ) (h : Heap) (xs : List Free)
    → AreFree bottom h xs
    → Chain (setup_heap bottom h).chunk (setup_heap bottom h).head xs
unfolding setup_heap
setup_heap-Chain bottom h xs (inl (ne, chain)) = rw (setup_heap-same bottom h ne) chain
setup_heap-Chain bottom h xs (inr (empty, positive, room, one)) =
    let test : (h.head == 0) ≡ true = ground (arith, empty) in
    rw test (subst (Chain _ _) (sym one) (refl, ground arith, ground arith, ground arith))

-- On a heap whose free list is sorted and without overlap, and also at the first call, when the whole heap is one free
-- chunk, `malloc` ends for every size that can be rounded up to a multiple `n` of 16. Either every free chunk is smaller
-- than `n`, and the result is the null pointer; or the first chunk that is large enough has given the block, the chunks
-- before and behind it stay free, as does its rest if that can hold a byte. The block of `n` bytes with its header then
-- lies inside what was free and outside all that stays free, and the list in memory is again sorted and without overlap.
pub malloc-Ended :
    (f bottom : ℕ) (h : Heap) (lo hi size : ℕ) (xs : List Free)
    → Ordered lo hi xs
    → 0 < lo
    → AreFree bottom h xs
    → size + 32 < 2 ^ 64
    → length xs < f
    → (size ≤ align size 16)
      × Ended (setup_heap bottom h) lo hi (align size 16) xs (malloc f bottom h size)
unfolding malloc
malloc-Ended f bottom h lo hi size xs o pos free small fuel =
    let (enough, fits, whole) = align_lem size small in
    let h' = setup_heap bottom h in
    (
      enough,
      ended h' lo hi (align size 16) xs (fit (align size 16) xs) _
          (fit-Promise (align size 16) lo hi xs o) (fit-First (align size 16) xs)
          (malloc_loop-Outcome f h' 0 lo hi h'.head (align size 16) xs o
            (setup_heap-Chain bottom h xs free) refl pos fits whole fuel),
    )
