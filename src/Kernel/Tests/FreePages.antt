-- ===== src/Kernel/Tests/FreePages.antt =====
-- The free pages.
use frosk_current.Prelude.{ℕ, ◌+◌, ◌≤◌, ◌<◌, ◌≡◌, refl, some, List, [], ◌∷◌, arith, Option}
use frosk_current.Kernel.Region.{align, floor}
use frosk_current.Kernel.Pages.{
  Range, Pool, MapEntry, def_stack_loc, setup_pages, alloc_pgs, free_pgs,
}
use frosk_current.Kernel.Pages.Count.{
  AllBounded, count, among, Allocated, returned, alloc_pgs-Allocated,
}
use frosk_current.Kernel.Pages.Free.{free_pgs-count, free_pgs-alloc_pgs}
use frosk_current.Kernel.Pages.Setup.{available, PoolPages, count_pool, setup_pages-available}

-- a page, and four pages behind a gap
abbrev ranges : List Range
ranges = record { addr = 0x90000; size = 0x1000 } ∷ record { addr = 0xa0000; size = 0x4000 } ∷ []

abbrev rest : List Range
rest = record { addr = 0x90000; size = 0x1000 } ∷ record { addr = 0xa0000; size = 0x2000 } ∷ []

ranges-AllBounded : AllBounded ranges
ranges-AllBounded = (omega arith, (omega arith, tt))

alloc_pgs-Allocated_example :
    (r : Option (ℕ × Pool)) × (alloc_pgs (some ranges) 0x1800 ≡ some (returned ranges r))
    × Allocated ranges (align 0x1800) r
alloc_pgs-Allocated_example =
    alloc_pgs-Allocated ranges 0x1800 ranges-AllBounded (omega arith) (omega arith)

free_pgs-count_example :
    (qs : List Range) × (free_pgs (some ranges) 0x91000 0x1fff ≡ some (some qs))
    × AllBounded qs
    × ((q : ℕ) → count qs q ≡ count ranges q + among 0x91000 (floor 0x1fff) q)
free_pgs-count_example =
    free_pgs-count ranges 0x91000 0x1fff ranges-AllBounded (omega arith) (omega arith)

free_pgs-alloc_pgs_example :
    (qs : List Range) × (free_pgs (some rest) 0xa2000 0x2000 ≡ some (some qs))
    × ((q : ℕ) → count qs q ≡ count ranges q)
unfolding alloc_pgs
free_pgs-alloc_pgs_example =
    free_pgs-alloc_pgs ranges rest 0xa2000 0x2000 ranges-AllBounded (omega arith) (omega arith) refl
      refl (λ e. absurd (omega (arith, e))) (omega arith) (omega arith)

-- the low memory, a hole of the BIOS, and the memory above
abbrev entries : List MapEntry
entries =
    record { base = 0; size = 0x9fc00; type = 1 }
    ∷ record { base = 0xf0000; size = 0x10000; type = 2 }
    ∷ record { base = 0x100123; size = 0x7ee0000; type = 1 }
    ∷ []

setup_pages-available_example :
    PoolPages (setup_pages entries).0
    × ((q : ℕ) → count_pool (setup_pages entries).0 q ≤ available entries q)
    × ((q : ℕ) → q < def_stack_loc → count_pool (setup_pages entries).0 q ≡ 0)
setup_pages-available_example =
    setup_pages-available entries (omega arith, (omega arith, (omega arith, tt)))
