-- ===== src/Kernel/Pages/Free.antt =====
-- What freeing does to the free bytes, also after an allocation.
use frosk_current.Prelude.{
  ℕ, ◌+◌, ◌%◌, ◌^◌, ◌≤◌, ◌<◌, ◌≡◌, refl, Option, none, some, List, [], ◌∷◌, arith, inl, inr, ◌⊎◌,
  ap, sym, ◌∙◌, ◌≢◌,
}
use mathlib.Core.Option
use mathlib.Core.Path.{subst}
use frosk_current.Kernel.Region.{page_size, align, floor}
use frosk_current.Kernel.Pages.{Range, Pool, free_loop, free_pgs, alloc_pgs, invalid_page}
use frosk_current.Kernel.Pages.Count.{
  full, taken, dangling, alloc_pgs-Allocated, among, count, AllBounded, Allocated, returned,
}

abbrev list_of : Pool → List Range
list_of none = []
list_of (some rs) = rs

-- The ways that the loop can go: the block continues no range; or it is added to one.
pub data Freed (rs : List Range) (addr size : ℕ) : Option (List Range) → Type 0 where
  apart : Freed rs addr size none
  joined :
      (qs : List Range)
      → AllBounded qs
      → ((q : ℕ) → count qs q ≡ count rs q + among addr size q)
      → Freed rs addr size (some qs)

Freed-behind :
    (p : Range) (ps : List Range) (addr size : ℕ) (r : Option (List Range))
    → p.addr + p.size ≤ 2 ^ 64
    → Freed ps addr size r
    → Freed (p ∷ ps) addr size (Option.map (λ qs. p ∷ qs) r)
Freed-behind p ps addr size _ bound apart = apart
Freed-behind p ps addr size _ bound (joined qs bounded counts) =
    joined (p ∷ qs) (bound, bounded) (λ q. omega (arith, counts q))

among-join :
    (a n addr size q : ℕ) → a + n ≡ addr → among a (n + size) q ≡ among a n q + among addr size q
among-join a n addr size q e = ground arith

-- the block behind the first range
Freed-after :
    (p : Range) (ps : List Range) (addr size : ℕ)
    → AllBounded (p ∷ ps)
    → p.addr + p.size ≡ addr
    → addr + size < 2 ^ 64
    → Freed (p ∷ ps) addr size (some (record { addr = p.addr; size = p.size + size } ∷ ps))
Freed-after p ps addr size (bound, bounded) e top =
    joined (record { addr = p.addr; size = p.size + size } ∷ ps) (omega arith, bounded)
      (λ q. omega (arith, among-join p.addr p.size addr size q e))

-- the block before the first range
Freed-before :
    (p : Range) (ps : List Range) (addr size : ℕ)
    → AllBounded (p ∷ ps)
    → addr + size ≡ p.addr
    → Freed (p ∷ ps) addr size (some (record { addr = addr; size = p.size + size } ∷ ps))
Freed-before p ps addr size (bound, bounded) e =
    let commuted : p.size + size ≡ size + p.size = omega arith in
    joined (record { addr = addr; size = p.size + size } ∷ ps) (omega arith, bounded)
      (λ q.
        omega (arith, among-join addr size p.addr p.size q e, ap (λ n. among addr n q) (commuted)))

free_loop-after :
    (p : Range) (ps : List Range) (addr size : ℕ)
    → p.addr + p.size ≡ addr
    → addr + size < 2 ^ 64
    → some (record { addr = p.addr; size = p.size + size } ∷ ps) ≡ free_loop (p ∷ ps) addr size
unfolding free_loop
free_loop-after p ps addr size e top = ground arith

free_loop-before :
    (p : Range) (ps : List Range) (addr size : ℕ)
    → p.addr + p.size ≢ addr
    → addr + size ≡ p.addr
    → p.addr + p.size ≤ 2 ^ 64
    → 0 < addr
    → addr + size < 2 ^ 64
    → some (record { addr = addr; size = p.size + size } ∷ ps) ≡ free_loop (p ∷ ps) addr size
unfolding free_loop
free_loop-before p ps addr size not_after e bound positive top = ground arith

free_loop-behind :
    (p : Range) (ps : List Range) (addr size : ℕ)
    → p.addr + p.size ≢ addr
    → addr + size ≢ p.addr
    → p.addr + p.size ≤ 2 ^ 64
    → 0 < addr
    → addr + size < 2 ^ 64
    → Option.map (λ qs. p ∷ qs) (free_loop ps addr size) ≡ free_loop (p ∷ ps) addr size
unfolding free_loop
free_loop-behind p ps addr size not_after not_before bound positive top = ground arith

eq_cases : (a b : ℕ) → (a ≡ b) ⊎ (a ≢ b)
eq_cases a b = ground arith

free_loop-Freed :
    (rs : List Range) (addr size : ℕ)
    → AllBounded rs
    → 0 < addr
    → addr + size < 2 ^ 64
    → Freed rs addr size (free_loop rs addr size)
unfolding free_loop
free_loop-Freed [] addr size bounded positive top = apart
free_loop-Freed (p ∷ ps) addr size (bound, bounded) positive top =
    elim (eq_cases (p.addr + p.size) addr) [
      | inl after ↦
          subst (Freed (p ∷ ps) addr size) (free_loop-after p ps addr size after top)
            (Freed-after p ps addr size (bound, bounded) after top)
      | inr not_after ↦ elim (eq_cases (addr + size) p.addr) [
        | inl before ↦
            subst (Freed (p ∷ ps) addr size)
              (free_loop-before p ps addr size not_after before bound positive top)
              (Freed-before p ps addr size (bound, bounded) before)
        | inr not_before ↦
            subst (Freed (p ∷ ps) addr size)
              (free_loop-behind p ps addr size not_after not_before bound positive top)
              (Freed-behind p ps addr size (free_loop ps addr size) bound
                (free_loop-Freed ps addr size bounded positive top))
      ]
    ]

free_pgs-inserted :
    (rs : List Range) (addr size : ℕ) (r : Option (List Range))
    → free_loop rs addr (floor size) ≡ r
    → AllBounded rs
    → addr + floor size < 2 ^ 64
    → Freed rs addr (floor size) r
    → (qs : List Range) × (free_pgs (some rs) addr size ≡ some (some qs))
      × AllBounded qs
      × ((q : ℕ) → count qs q ≡ count rs q + among addr (floor size) q)
unfolding free_pgs
free_pgs-inserted rs addr size _ e bounded top apart =
    (record { addr = addr; size = floor size } ∷ rs, rw e, (omega arith, bounded), λ q. omega arith)
free_pgs-inserted rs addr size _ e bounded top (joined qs bounded' counts) =
    (qs, rw e, bounded', counts)

-- `free_pgs` returns, and adds the block to the free bytes: each address is in as many ranges as
-- before, and one more in the block. The block is not at address 0 and ends below the last address.
pub free_pgs-count :
    (rs : List Range) (addr size : ℕ)
    → AllBounded rs
    → 0 < addr
    → addr + floor size < 2 ^ 64
    → (qs : List Range) × (free_pgs (some rs) addr size ≡ some (some qs))
      × AllBounded qs
      × ((q : ℕ) → count qs q ≡ count rs q + among addr (floor size) q)
free_pgs-count rs addr size bounded positive top =
    free_pgs-inserted rs addr size (free_loop rs addr (floor size)) refl bounded top
      (free_loop-Freed rs addr (floor size) bounded positive top)

counts_of :
    (rs ps : List Range) (a size : ℕ) (r : Option (ℕ × Pool))
    → Allocated rs size r
    → returned rs r ≡ (a, some ps)
    → a ≢ invalid_page
    → AllBounded ps × ((q : ℕ) → count rs q ≡ count ps q + among a size q)
counts_of rs ps a size _ (full smaller) e valid = absurd (valid (sym (ap (λ r. r.0) e)))
counts_of rs ps a size _ (taken b qs bounded top counts) e valid =
    let same_addr : b ≡ a = ap (λ r. r.0) e in
    let same_list : qs ≡ ps = ap (λ r. list_of r.1) e in
    (
      subst AllBounded same_list bounded,
      λ q.
          omega
            (arith, counts q, ap (λ l. count l q) same_list, ap (λ n. among n size q) same_addr),
    )
counts_of rs ps a size _ (dangling b h) e valid = ground arith

-- If an allocation of whole pages returns a block and keeps a head, freeing the block restores the
-- free bytes: each address is in as many ranges as before both. The block is not at address 0 and
-- ends below the last address.
pub free_pgs-alloc_pgs :
    (rs ps : List Range) (a size : ℕ)
    → AllBounded rs
    → 0 < size
    → size ≤ 2 ^ 63
    → size % page_size ≡ 0
    → alloc_pgs (some rs) size ≡ some (a, some ps)
    → a ≢ invalid_page
    → 0 < a
    → a + size < 2 ^ 64
    → (qs : List Range) × (free_pgs (some ps) a size ≡ some (some qs))
      × ((q : ℕ) → count qs q ≡ count rs q)
free_pgs-alloc_pgs rs ps a size bounded some_bytes small whole e valid positive top =
    let (r, e', allocated) = alloc_pgs-Allocated rs size bounded some_bytes small in
    let up : align size ≡ size = ground arith in
    let down : floor size ≡ size = ground arith in
    let same : returned rs r ≡ (a, some ps) =
      ap (λ x. elim x [ none ↦ returned rs r | some y ↦ y ]) (sym e' ∙ e) in
    let (bounded', counts) =
      counts_of rs ps a size r (subst (λ n. Allocated rs n r) up allocated) same valid in
    let (qs, freed, _, counts') =
      free_pgs-count ps a size bounded' positive (omega (arith, down)) in
    (qs, freed, λ q. omega (arith, counts q, counts' q, ap (λ n. among a n q) down))
