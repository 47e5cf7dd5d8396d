-- ===== src/Kernel/Tests/Regions.antt =====
-- Regions, page faults and free pages.
use frosk_current.Prelude.{
  ℕ, ◌+◌, ◌-◌, ◌*◌, ◌<◌, ◌≡◌, refl, some, true, false, [], ◌∷◌, arith, if◌then◌else◌,
}
use Prim.Native.Nat.{bit_or}
use frosk_current.Prelude.Words.{add64}
use frosk_current.Kernel.Region.{
  any_overlap, Region, Pages, Mapping, page_size, floor, region_lower, in_region, has_block, swapin,
  swapout, allocate, shift_rgn,
}
use frosk_current.Kernel.Region.Swap.{is_mapped, swapout-swapin}
use frosk_current.Kernel.Region.Allocate.{allocate-swapin}
use frosk_current.Kernel.Region.Shift.{shift_rgn-offset}
use frosk_current.Kernel.Fault.{Memory, user_write, page_fault}
use frosk_current.Kernel.Fault.Resolved.{IsMapped, IsLaidOut, HasMemory, page_fault-HasMemory}

abbrev code : Region
code = record {
  virt = 0x200000;
  size = 0x2000;
  blocks = record { virt = 0x200000; phys = 0x90000; size = 0x2000 } ∷ [];
  growup = true;
}

abbrev stack : Region
stack = record { virt = 0x800000000000; size = 0x1000; blocks = []; growup = false }

-- nothing is mapped
abbrev unmapped : Pages
unmapped _ = 0

abbrev process : Memory
process = record { stack = stack; heap = code; pages = λ q. bit_or (0x90000 + (q - 0x200000)) 7 }

process-IsLaidOut : IsLaidOut process
process-IsLaidOut = record {
  heap_up = refl;
  heap_page = refl;
  heap_low = omega arith;
  stack_down = refl;
  stack_top = omega arith;
  stack_page = refl;
  stack_size = omega arith;
}

process-IsMapped : IsMapped process
process-IsMapped = (omega arith, (refl, refl, omega arith, (λ a lo hi. refl), omega arith))

page_fault-HasMemory_example :
    (s' : Memory) × (page_fault process user_write 0x205123 0x77000 ≡ some s')
    × HasMemory s' (floor 0x205123)
page_fault-HasMemory_example =
    page_fault-HasMemory process 0x205123 0x77000 process-IsLaidOut process-IsMapped (omega arith)
      (omega arith)

-- every address names the code region
abbrev regions : ℕ → Region
regions _ = code

abbrev nothing_in : Mapping
nothing_in = record { inside = []; pages = unmapped }

swapout-swapin_example :
    (s' s'' : Mapping) × (swapin regions nothing_in 8 7 ≡ some (true, s'))
    × ((q : ℕ) → is_mapped code.blocks q ≡ false → s'.pages q ≡ 0)
    × (swapout regions s' 8 ≡ some s'')
    × (s''.inside ≡ [])
    × ((q : ℕ) → s''.pages q ≡ (if is_mapped code.blocks q then 0 else 0))
unfolding any_overlap
swapout-swapin_example = swapout-swapin regions nothing_in 8 7 (refl, tt) refl

abbrev allocated : ℕ → Region
allocated _ = allocate 0x800000000000 0x1800 false 0x50000

allocate-swapin_example :
    (s' : Mapping) × (swapin allocated nothing_in 8 7 ≡ some (true, s'))
    × ((i : ℕ)
        → i * page_size < 0x1800
        → s'.pages (region_lower (allocated 8) + i * page_size)
          ≡ bit_or (add64 0x50000 (i * page_size)) 7)
unfolding any_overlap
allocate-swapin_example =
    allocate-swapin allocated nothing_in 8 7 0x800000000000 0x1800 false 0x50000 refl
      (refl, omega arith, omega arith, (omega arith, omega arith)) refl

shift_rgn-offset_example :
    (in_region (shift_rgn code 0x400000) (0x400000 + 0x1fff) ≡ in_region code (0x200000 + 0x1fff))
    × (has_block (shift_rgn code 0x400000).blocks (0x400000 + 0x1fff)
        ≡ has_block code.blocks (0x200000 + 0x1fff))
shift_rgn-offset_example =
    shift_rgn-offset code 0x400000 0x1fff refl (omega arith) (omega arith)
      (omega arith, omega arith, omega arith, tt)
