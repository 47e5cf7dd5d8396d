-- ===== src/Kernel/Pages/Count.antt =====
-- What allocation does to the free bytes.
use frosk_current.Prelude.{
  ℕ, ◌+◌, ◌-◌, ◌^◌, ◌≤◌, ◌<◌, ◌≡◌, refl, Option, none, some, List, [], ◌∷◌, ltb, leb, ◌&&◌,
  if◌then◌else◌, arith, inl, inr, ◌⊎◌, ap,
}
use mathlib.Core.Option
use mathlib.Core.Path.{subst}
use frosk_current.Kernel.Region.{align}
use frosk_current.Kernel.Pages.{Range, Pool, invalid_page, alloc_loop, alloc_pgs, unlinked, behind}

-- 1 if the address is in the `size` bytes from `addr` on, else 0
abbrev pub among : (addr size q : ℕ) → ℕ
among addr size q = if leb addr q && ltb q (addr + size) then 1 else 0

-- In how many ranges is an address? The ranges are disjoint exactly if it is 1 at most.
abbrev pub count : List Range → ℕ → ℕ
count [] q = 0
count (p ∷ ps) q = among p.addr p.size q + count ps q

-- Every range ends within the addresses.
abbrev pub AllBounded : List Range → Type 0
AllBounded [] = Unit
AllBounded (p ∷ ps) = (p.addr + p.size ≤ 2 ^ 64) × AllBounded ps

-- Every range is smaller than `size`.
abbrev pub AllSmaller : List Range → ℕ → Type 0
AllSmaller [] size = Unit
AllSmaller (p ∷ ps) size = (p.size < size) × AllSmaller ps size

-- Only the head, the last, is not smaller, and it is taken whole.
pub data HeadTaken (size : ℕ) : List Range → Type 0 where
  head : (p : Range) → p.size ≡ size → HeadTaken size (p ∷ [])
  past : (p : Range) (ps : List Range) → p.size < size → HeadTaken size ps → HeadTaken size (p ∷ ps)

-- The ways that an allocation can go: no range is large enough; or the bytes are taken from the free
-- ones and from nothing else; or the head is freed, and still pointed to.
pub data Allocated (rs : List Range) (size : ℕ) : Option (ℕ × Pool) → Type 0 where
  full : AllSmaller rs size → Allocated rs size none
  taken :
      (a : ℕ) (ps : List Range)
      → AllBounded ps
      → a + size ≤ 2 ^ 64
      → ((q : ℕ) → count rs q ≡ count ps q + among a size q)
      → Allocated rs size (some (a, some ps))
  dangling : (a : ℕ) → HeadTaken size rs → Allocated rs size (some (a, none))

among-cut :
    (addr n size q : ℕ)
    → size < n
    → among addr n q ≡ among addr (n - size) q + among (addr + (n - size)) size q
among-cut addr n size q h = ground arith

-- behind a range that is too small
Allocated-behind :
    (p : Range) (ps : List Range) (size : ℕ) (r : Option (ℕ × Pool))
    → p.size < size
    → p.addr + p.size ≤ 2 ^ 64
    → Allocated ps size r
    → Allocated (p ∷ ps) size (Option.map (behind p) r)
Allocated-behind p ps size _ small bound (full smaller) = full (small, smaller)
Allocated-behind p ps size _ small bound (taken a qs bounded top counts) =
    taken a (p ∷ qs) (bound, bounded) top (λ q. omega (arith, counts q))
Allocated-behind p ps size _ small bound (dangling a h) = dangling a (past p ps small h)

-- the whole first range
Allocated-whole :
    (p : Range) (ps : List Range) (size : ℕ)
    → AllBounded (p ∷ ps)
    → p.size ≡ size
    → Allocated (p ∷ ps) size (some (p.addr, unlinked ps))
Allocated-whole p [] size bounded e = dangling p.addr (head p e)
Allocated-whole p (p' ∷ ps) size (bound, bounded) e =
    taken p.addr (p' ∷ ps) bounded (omega arith) (λ q. omega (arith, ap (λ n. among p.addr n q) e))

-- the end of the first range
Allocated-part :
    (p : Range) (ps : List Range) (size : ℕ)
    → AllBounded (p ∷ ps)
    → size < p.size
    → Allocated (p ∷ ps) size (
        some (p.addr + (p.size - size), some (record { addr = p.addr; size = p.size - size } ∷ ps)))
Allocated-part p ps size (bound, bounded) less =
    taken (p.addr + (p.size - size)) (record { addr = p.addr; size = p.size - size } ∷ ps)
      (omega arith, bounded) (omega arith) (λ q. omega (arith, among-cut p.addr p.size size q less))

alloc_loop-behind :
    (p : Range) (ps : List Range) (size : ℕ)
    → p.size < size
    → Option.map (behind p) (alloc_loop ps size) ≡ alloc_loop (p ∷ ps) size
unfolding alloc_loop
alloc_loop-behind p ps size small = ground arith

alloc_loop-whole :
    (p : Range) (ps : List Range) (size : ℕ)
    → p.size ≡ size
    → some (p.addr, unlinked ps) ≡ alloc_loop (p ∷ ps) size
unfolding alloc_loop
alloc_loop-whole p ps size e = ground arith

alloc_loop-part :
    (p : Range) (ps : List Range) (size : ℕ)
    → size < p.size
    → p.addr + p.size ≤ 2 ^ 64
    → 0 < size
    → some (p.addr + (p.size - size), some (record { addr = p.addr; size = p.size - size } ∷ ps))
      ≡ alloc_loop (p ∷ ps) size
unfolding alloc_loop
alloc_loop-part p ps size less bound positive = ground arith

compare_cases : (a b : ℕ) → (a < b) ⊎ (a ≡ b) ⊎ (b < a)
compare_cases a b = ground arith

alloc_loop-Allocated :
    (rs : List Range) (size : ℕ) → AllBounded rs → 0 < size → Allocated rs size (alloc_loop rs size)
unfolding alloc_loop
alloc_loop-Allocated [] size bounded positive = full tt
alloc_loop-Allocated (p ∷ ps) size (bound, bounded) positive = elim (compare_cases p.size size) [
  | inl small ↦ subst (Allocated (p ∷ ps) size) (alloc_loop-behind p ps size small) (
      Allocated-behind p ps size (alloc_loop ps size) small bound
        (alloc_loop-Allocated ps size bounded positive))
  | inr (inl e) ↦
      subst (Allocated (p ∷ ps) size) (alloc_loop-whole p ps size e)
        (Allocated-whole p ps size (bound, bounded) e)
  | inr (inr less) ↦
      subst (Allocated (p ∷ ps) size) (alloc_loop-part p ps size less bound positive)
        (Allocated-part p ps size (bound, bounded) less)
]

-- the result of `alloc_pgs` from that of its loop
abbrev pub returned : List Range → Option (ℕ × Pool) → ℕ × Pool
returned rs none = (invalid_page, some rs)
returned rs (some r) = r

-- `alloc_pgs` returns, and in one of three ways: if every range is too small it returns the invalid
-- page and changes nothing; it takes a block of the aligned size out of the free ranges, such that
-- each address is in as many ranges as before, less one in the block; or it takes the head whole.
pub alloc_pgs-Allocated :
    (rs : List Range) (size : ℕ)
    → AllBounded rs
    → 0 < size
    → size ≤ 2 ^ 63
    → (r : Option (ℕ × Pool)) × (alloc_pgs (some rs) size ≡ some (returned rs r))
      × Allocated rs (align size) r
unfolding alloc_pgs
alloc_pgs-Allocated rs size bounded positive small =
    let r = alloc_loop rs (align size) in
    (r, refl, alloc_loop-Allocated rs (align size) bounded (ground arith))
