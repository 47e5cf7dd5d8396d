-- ===== src/Cstd/Malloc.antt =====
-- `lib/cstd/src/malloc.c`: the heap of a user program, a list of free chunks. A chunk is known by
-- the address of its header, and 0 is the null pointer; loops over the list take fuel.
pub mod Chain
pub mod Fit
pub mod Overlap
pub mod Served
use frosk_current.Prelude.{
  ℕ, zero, suc, ◌+◌, ◌-◌, ◌*◌, ◌/◌, ◌%◌, ◌^◌, true, false, Option, none, some, ◌==◌, ltb, leb,
  if◌then◌else◌,
}
use frosk_current.Prelude.Words.{add64, sub64, mul64}
use frosk_current.Prelude.Memory.{Memory}
use frosk_current.Cstd.Str.{memset, memcpy}
use mathlib.Core.Option.{bind}

-- `chunk_t`
pub record Chunk : Type 0 where
  pub next : ℕ
  pub size : ℕ

abbrev pub chunk_size : ℕ
chunk_size = 16

-- the headers in memory, and the pointer `head`
pub record Heap : Type 0 where
  pub head : ℕ
  pub chunk : ℕ → Chunk

abbrev pub put : (ℕ → Chunk) → ℕ → Chunk → ℕ → Chunk
put h p c q = if q == p then c else h q

abbrev pub set_chunk : Heap → ℕ → Chunk → Heap
set_chunk h p c = record h { chunk = put h.chunk p c }

-- `p->next = q`
abbrev pub set_next : Heap → ℕ → ℕ → Heap
set_next h p q = set_chunk h p (record { next = q; size = (h.chunk p).size })

-- `p->size = n`
abbrev pub set_size : Heap → ℕ → ℕ → Heap
set_size h p n = set_chunk h p (record { next = (h.chunk p).next; size = n })

-- `*pnext = q`, where 0 stands for `&head`, and `p` for `&p->next`
abbrev pub store_next : Heap → ℕ → ℕ → Heap
store_next h zero q = record h { head = q }
store_next h (suc p) q = set_next h (suc p) q

abbrev pub align : ℕ → ℕ → ℕ
align x to = if x % to == 0 then x else (x - x % to + to) % 2 ^ 64

-- `CHUNK_TOP`
abbrev pub chunk_top : Heap → ℕ → ℕ
chunk_top h c = c + chunk_size + (h.chunk c).size

-- the chunk `ch` is taken, whole or divided
pub take_chunk : Heap → (pnext ch size : ℕ) → ℕ × Heap
take_chunk h pnext ch size =
    let c = h.chunk ch in
    let rest = ch + chunk_size + size / chunk_size * chunk_size in
    (
      ch + chunk_size,
      if leb c.size (add64 size chunk_size)
          then store_next h pnext c.next
          else set_chunk (store_next h pnext rest) rest
              (record { next = c.next; size = c.size - size - chunk_size }),
    )

pub malloc_loop : ℕ → Heap → (pnext ch size : ℕ) → Option (ℕ × Heap)
malloc_loop zero h pnext ch size = none
malloc_loop (suc f) h pnext ch size =
    let c = h.chunk ch in
    elim (ch == 0) [
      | true ↦ some (0, h)
      | false ↦ elim (leb size c.size) [
        | true ↦ some (take_chunk h pnext ch size)
        | false ↦ malloc_loop f h ch c.next size
      ]
    ]

abbrev pub half_low : ℕ
half_low = 0x400000000000

-- The first call lays one chunk over the whole heap, from the linker's `_heap_bottom` on.
pub setup_heap : ℕ → Heap → Heap
setup_heap bottom h =
    let start = align bottom chunk_size in
    if h.head == 0
    then record {
      head = start;
      chunk =
          put h.chunk start (record { next = 0; size = sub64 (sub64 half_low chunk_size) bottom });
    }
    else h

-- The pointer is 0 if no chunk is large enough.
pub malloc : ℕ → (bottom : ℕ) → Heap → (size : ℕ) → Option (ℕ × Heap)
malloc f bottom h size =
    let h' = setup_heap bottom h in malloc_loop f h' 0 h'.head (align size chunk_size)

-- the chunk before `c` in the list, from `prior` on
free_prior : ℕ → Heap → (prior c : ℕ) → Option ℕ
free_prior zero h prior c = none
free_prior (suc f) h prior c =
    let next = (h.chunk prior).next in
    elim (next == 0) [
      | true ↦ some prior
      | false ↦ elim (ltb next c) [ true ↦ free_prior f h next c | false ↦ some prior ]
    ]

-- `sizeof (chunk)`, the size of a pointer, which the code adds in three places
abbrev pub pointer_size : ℕ
pointer_size = 8

-- `c` becomes the first chunk of the list
free_first : Heap → ℕ → Heap
free_first h c =
    let joined = chunk_top h c == h.head in
    let h' =
      if joined
      then set_chunk h c (record {
        next = (h.chunk h.head).next;
        size = add64 (h.chunk c).size (add64 (h.chunk h.head).size pointer_size);
      })
      else set_next h c h.head in
    record h' { head = c }

-- `c` is joined to `prior`, which ends where it begins, and if that fills a hole, the next chunk too
free_join : Heap → (prior c : ℕ) → Heap
free_join h prior c =
    let h' = set_size h prior (add64 (h.chunk prior).size (add64 pointer_size (h.chunk c).size)) in
    let next = (h'.chunk prior).next in
    if chunk_top h' prior == next
    then set_chunk h' prior (record {
      next = (h'.chunk next).next;
      size = add64 (h'.chunk prior).size (add64 (h'.chunk next).size chunk_size);
    })
    else h'

-- `c` is put behind `prior`, joined with the next chunk if that begins where it ends
free_link : Heap → (prior c : ℕ) → Heap
free_link h prior c =
    let next = (h.chunk prior).next in
    let h' =
      if chunk_top h c == next
      then set_chunk h c (record {
        next = (h.chunk next).next;
        size = add64 (h.chunk c).size (add64 (h.chunk next).size pointer_size);
      })
      else set_next h c next in
    set_next h' prior c

pub free : ℕ → Heap → (p : ℕ) → Option Heap
free f h p =
    let c = p - chunk_size in
    if p == 0
    then some h
    else if ltb c h.head
    then some (free_first h c)
    else bind (free_prior f h h.head c) (λ prior.
      some (if chunk_top h prior == c then free_join h prior c else free_link h prior c))

-- `memset` is called on the null pointer too.
pub calloc : ℕ → (bottom : ℕ) → Heap → Memory → (count size : ℕ) → Option (ℕ × Heap × Memory)
calloc f bottom h m count size =
    bind (malloc f bottom h (mul64 count size))
      (λ (p, h'). some (p, h', memset m p 0 (mul64 count size)))

-- The bytes of the old block are copied also if there is no new one.
pub realloc : ℕ → (bottom : ℕ) → Heap → Memory → (old size : ℕ) → Option (ℕ × Heap × Memory)
unfolding malloc free
realloc f bottom h m old size =
    let kept = (h.chunk (old - chunk_size)).size in
    let copy_size = if ltb kept size then kept else size in
    let reserved = malloc f bottom h size in
    if old == 0
    then bind reserved (λ (new, h'). some (new, h', m))
    else bind reserved
        (λ (new, h'). bind (free f h' old) (λ h''. some (new, h'', memcpy m new old copy_size)))
