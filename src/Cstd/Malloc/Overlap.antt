-- ===== src/Cstd/Malloc/Overlap.antt =====
-- `malloc` leaves the old size in the header of a chunk that it divides, and `free` relies on it.
use frosk_current.Prelude.{
  ℕ, suc, ◌+◌, ◌-◌, ◌/◌, ◌*◌, ◌%◌, ◌^◌, ◌≤◌, ◌<◌, ◌≡◌, ◌≢◌, true, false, some, arith, ◌==◌, leb,
  ltb, refl, ap, ◌∙◌,
}
use frosk_current.Cstd.Malloc.Served.{align_lem, setup_heap-same}
use frosk_current.Prelude.Words.{add64}
use frosk_current.Cstd.Malloc.{
  Heap, chunk_top, chunk_size, set_chunk, set_next, malloc_loop, take_chunk, malloc, align, free,
  free_first,
}

-- the heap after the first chunk `c` was divided for `n` bytes
abbrev divided : Heap → ℕ → ℕ → Heap
divided h c n =
    let at = c + 16 + n in
    set_chunk (record h { head = at }) at
      (record { next = (h.chunk c).next; size = (h.chunk c).size - n - 16 })

-- the heap after that block was freed again
abbrev freed : Heap → ℕ → ℕ → Heap
freed h c n = record (set_next (divided h c n) c (c + 16 + n)) { head = c }

malloc_loop-first :
    (f : ℕ) (h : Heap) (n : ℕ)
    → h.head ≢ 0
    → n ≤ (h.chunk h.head).size
    → malloc_loop (suc f) h 0 h.head n ≡ some (take_chunk h 0 h.head n)
unfolding malloc_loop
malloc_loop-first f h n ne enough =
    let nonnull : (h.head == 0) ≡ false = ground arith in
    let fits : leb n (h.chunk h.head).size ≡ true = ground arith in
    rw (nonnull, malloc_loop) (rw fits refl)

take_chunk-divided :
    (h : Heap) (n : ℕ)
    → n + 16 < 2 ^ 64
    → n % 16 ≡ 0
    → n + 16 < (h.chunk h.head).size
    → take_chunk h 0 h.head n ≡ (h.head + 16, divided h h.head n)
unfolding take_chunk
take_chunk-divided h n small whole larger =
    let no_wrap : add64 n chunk_size ≡ n + 16 = omega arith in
    let test : leb (h.chunk h.head).size (n + 16) ≡ false = ground arith in
    let at : h.head + chunk_size + n / chunk_size * chunk_size ≡ h.head + 16 + n = omega arith in
    rw no_wrap (rw test (rw at refl))

-- If the first free chunk is divided for a block, and the block is freed again, then the free list
-- begins with a chunk that reaches over the chunk behind it: the same bytes are free twice.
pub malloc-free_overlap :
    (f bottom : ℕ) (h : Heap) (size : ℕ)
    → h.head ≢ 0
    → size + 32 < 2 ^ 64
    → align size 16 + 16 < (h.chunk h.head).size
    → (h' h'' : Heap) × (malloc (suc f) bottom h size ≡ some (h.head + 16, h'))
      × (free f h' (h.head + 16) ≡ some h'')
      × (h''.head ≡ h.head)
      × ((h''.chunk h''.head).next ≡ h.head + 16 + align size 16)
      × ((h''.chunk h''.head).next < chunk_top h'' h''.head)
unfolding malloc free free_first
malloc-free_overlap f bottom h size ne small larger = (
  divided h h.head n,
  freed h h.head n,
  rw (setup_heap-same bottom h ne) (loop ∙ ap some taken),
  released,
  refl,
  ground arith,
  ground arith,
)
  where
    n : ℕ
    n = align size 16

    facts : (size ≤ n) × (n + 16 < 2 ^ 64) × (n % 16 ≡ 0)
    facts = align_lem size small

    loop : malloc_loop (suc f) h 0 h.head n ≡ some (take_chunk h 0 h.head n)
    loop = malloc_loop-first f h n ne (omega (arith, larger))

    taken : take_chunk h 0 h.head n ≡ (h.head + 16, divided h h.head n)
    taken = take_chunk-divided h n facts.1 facts.2 larger

    released : free f (divided h h.head n) (h.head + 16) ≡ some (freed h h.head n)
    released =
        let c : h.head + 16 - chunk_size ≡ h.head = omega arith in
        let given : (h.head + 16 == 0) ≡ false = ground arith in
        let below : ltb h.head (h.head + 16 + n) ≡ true = ground arith in
        let kept : (divided h h.head n).chunk h.head ≡ h.chunk h.head = ground arith in
        let wide : (chunk_top (divided h h.head n) h.head == h.head + 16 + n) ≡ false =
          ground (arith, kept, larger) in
        rw (given, c) (rw below (rw wide refl))
