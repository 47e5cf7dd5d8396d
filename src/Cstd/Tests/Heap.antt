-- ===== src/Cstd/Tests/Heap.antt =====
-- The heap, random numbers and classes of characters.
use frosk_current.Prelude.{
  inl, ◌+◌, ◌≤◌, ◌<◌, ◌≡◌, refl, some, List, [], ◌∷◌, arith, ◌==◌, if◌then◌else◌,
}
use frosk_current.Cstd.Malloc.{setup_heap, Heap, align, chunk_top, malloc, free}
use frosk_current.Cstd.Malloc.Fit.{Free, Ordered}
use frosk_current.Cstd.Malloc.Chain.{Chain}
use frosk_current.Cstd.Malloc.Served.{Ended, malloc-Ended}
use frosk_current.Cstd.Malloc.Overlap.{malloc-free_overlap}

-- two free chunks, of 16 and of 160 bytes
abbrev heap : Heap
heap = record {
  head = 32;
  chunk = λ q. if q == 32 then record { next = 96; size = 16 } else record { next = 0; size = 160 };
}

abbrev chunks : List Free
chunks = record { at = 32; size = 16 } ∷ record { at = 96; size = 160 } ∷ []

chunks-Ordered : Ordered 32 512 chunks
chunks-Ordered = (omega arith, (omega arith, omega arith))

chunks-Chain : Chain heap.chunk 32 chunks
chunks-Chain = (refl, omega arith, refl, (refl, omega arith, refl, refl))

malloc-Ended_example :
    (40 ≤ align 40 16)
    × Ended (setup_heap 32 heap) 32 512 (align 40 16) chunks (malloc 8 32 heap 40)
malloc-Ended_example =
    malloc-Ended 8 32 heap 32 512 40 chunks chunks-Ordered (omega arith)
      (inl (λ e. absurd (omega (arith, e)), chunks-Chain)) (omega arith) (omega arith)

-- one chunk of 160 bytes
abbrev single : Heap
single = record { head = 96; chunk = λ _. record { next = 0; size = 160 } }

malloc-free_overlap_example :
    (h' h'' : Heap) × (malloc 2 32 single 40 ≡ some (112, h'))
    × (free 1 h' 112 ≡ some h'')
    × (h''.head ≡ 96)
    × ((h''.chunk h''.head).next ≡ 96 + 16 + align 40 16)
    × ((h''.chunk h''.head).next < chunk_top h'' h''.head)
malloc-free_overlap_example =
    malloc-free_overlap 1 32 single 40 (λ e. absurd (omega (arith, e))) (omega arith) (omega arith)
