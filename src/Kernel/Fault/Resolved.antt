-- ===== src/Kernel/Fault/Resolved.antt =====
-- A fault of a user's write is resolved.
use frosk_current.Prelude.{
  ℕ, ◌+◌, ◌-◌, ◌/◌, ◌%◌, ◌≤◌, ◌<◌, ◌≡◌, true, false, some, arith, ltb, Bool-cases, inl, inr, ◌⊎◌,
  ap, ◌∙◌,
}
use frosk_current.Prelude.Words.{add64}
use frosk_current.Kernel.Region.{Region, page_size, align, floor, in_region, grow}
use frosk_current.Kernel.Region.Backed.{Backed, AllMapped}
use frosk_current.Kernel.Region.Assure.{
  grown_up-inside, grown_down-inside, outside_up, outside_down, assure-outside, assure-IsAssured,
  grow_up, grow_down,
}
use frosk_current.Kernel.Fault.{
  Memory, low_half_top, user_write, assure_stack, assure_heap, extend, page_fault,
}

-- The layout of a process: the heap grows up from the bottom of the lower half, the stack down from
-- its top, and each is in its own half.
pub record IsLaidOut (s : Memory) : Type 0 where
  pub heap_up : s.heap.growup ≡ true
  pub heap_page : s.heap.virt % page_size ≡ 0
  pub heap_low : s.heap.virt + s.heap.size ≤ low_half_top / 2
  pub stack_down : s.stack.growup ≡ false
  pub stack_top : s.stack.virt ≤ low_half_top
  pub stack_page : s.stack.virt % page_size ≡ 0
  pub stack_size : s.stack.size ≤ low_half_top / 2 - page_size

-- The page has memory: a block of the stack or of the heap has its address, and the page tables lead to the physical page,
-- for writes of a user.
abbrev pub HasMemory : Memory → ℕ → Type 0
HasMemory s page = Backed 7 s.pages s.stack.blocks page ⊎ Backed 7 s.pages s.heap.blocks page

-- Every page of the blocks has its entry.
abbrev pub IsMapped : Memory → Type 0
IsMapped s = AllMapped 7 s.pages s.stack.blocks × AllMapped 7 s.pages s.heap.blocks

assure_stack-inside :
    (s : Memory) (page phys : ℕ)
    → page < low_half_top
    → in_region s.stack page ≡ true
    → AllMapped 7 s.pages s.stack.blocks
    → (s' : Memory) × (assure_stack s page phys ≡ some (true, s')) × HasMemory s' page
unfolding assure_stack
assure_stack-inside s page phys small inside mapped =
    let (r', m', e, a) = assure-IsAssured s.stack s.pages page 7 phys (omega arith) inside mapped in
    (record { stack = r'; heap = s.heap; pages = m' }, rw e, inl a.backed)

assure_heap-inside :
    (s : Memory) (page phys : ℕ)
    → page < low_half_top
    → in_region s.heap page ≡ true
    → AllMapped 7 s.pages s.heap.blocks
    → (s' : Memory) × (assure_heap s page phys ≡ some (true, s')) × HasMemory s' page
unfolding assure_heap
assure_heap-inside s page phys small inside mapped =
    let (r', m', e, a) = assure-IsAssured s.heap s.pages page 7 phys (omega arith) inside mapped in
    (record { stack = s.stack; heap = r'; pages = m' }, rw e, inr a.backed)

assure_stack-outside :
    (s : Memory) (page phys : ℕ)
    → in_region s.stack page ≡ false
    → assure_stack s page phys ≡ some (false, s)
unfolding assure_stack
assure_stack-outside s page phys out = rw (assure-outside s.stack s.pages page 7 phys out)

assure_heap-outside :
    (s : Memory) (page phys : ℕ)
    → in_region s.heap page ≡ false
    → assure_heap s page phys ≡ some (false, s)
unfolding assure_heap
assure_heap-outside s page phys out = rw (assure-outside s.heap s.pages page 7 phys out)

extend-assure_heap :
    (s s' : Memory) (heap : Region) (page phys : ℕ)
    → ltb page (low_half_top / 2) ≡ true
    → grow s.heap (add64 page page_size) ≡ some heap
    → assure_heap (record s { heap = heap }) page phys ≡ some (true, s')
    → extend s page phys ≡ some s'
unfolding extend
extend-assure_heap s s' heap page phys lower grown e = rw (lower, grown, e)

extend-assure_stack :
    (s s' : Memory) (stack : Region) (page phys : ℕ)
    → ltb page (low_half_top / 2) ≡ false
    → grow s.stack page ≡ some stack
    → assure_stack (record s { stack = stack }) page phys ≡ some (true, s')
    → extend s page phys ≡ some s'
unfolding extend
extend-assure_stack s s' stack page phys upper grown e = rw (upper, grown, e)

-- `extend` grows the heap for a page of the lower half, and the stack for another.
extend-HasMemory :
    (s : Memory) (page phys : ℕ)
    → IsLaidOut s
    → IsMapped s
    → page % page_size ≡ 0
    → s.heap.virt ≤ page
    → page < s.stack.virt
    → in_region s.stack page ≡ false
    → in_region s.heap page ≡ false
    → (s' : Memory) × (extend s page phys ≡ some s') × HasMemory s' page
extend-HasMemory s page phys laid mapped at low top no_stack no_heap =
    elim (Bool-cases (ltb page (low_half_top / 2))) [
      | inl lower ↦
          let heap : Region = record s.heap { size = align (page + page_size - s.heap.virt) } in
          let to : add64 page page_size ≡ page + page_size = omega arith in
          let above = outside_up s.heap page laid.heap_up low (omega arith) no_heap in
          let grown = grow_up s.heap (page + page_size) laid.heap_up (omega arith) (omega arith) in
          let (s', e, h) =
            assure_heap-inside (record s { heap = heap }) page phys (omega arith)
              (grown_up-inside s.heap page laid.heap_up laid.heap_page at low (omega arith))
              mapped.1 in
          (s', extend-assure_heap s s' heap page phys lower (ap (grow s.heap) to ∙ grown) e, h)
      | inr upper ↦
          let stack : Region = record s.stack { size = align (s.stack.virt - page) } in
          let below =
            outside_down s.stack page laid.stack_down top (ground arith) (omega arith) no_stack in
          let grown = grow_down s.stack page laid.stack_down below (omega arith) in
          let (s', e, h) =
            assure_stack-inside (record s { stack = stack }) page phys (omega arith)
              (grown_down-inside s.stack page laid.stack_down laid.stack_page at top (omega arith))
              mapped.0 in
          (s', extend-assure_stack s s' stack page phys upper grown e, h)
    ]

floor-page : (a : ℕ) → floor a % page_size ≡ 0
floor-page a = ground arith

floor-below : (a top : ℕ) → a < top → floor a < top
floor-below a top h = ground arith

floor-above : (a low : ℕ) → low % page_size ≡ 0 → low ≤ a → low ≤ floor a
floor-above a low l h = ground arith

-- A write of a user to a page of the process, from the bottom of the heap to the top of the stack,
-- is resolved, wherever it is: `page_fault` returns, a block of the stack or of the heap has the page, and the page tables
-- lead to its physical page, for writes of a user. Heap and stack are each in their half of the lower addresses, and
-- the pages of their blocks have their entries before.
pub page_fault-HasMemory :
    (s : Memory) (cr2 phys : ℕ)
    → IsLaidOut s
    → IsMapped s
    → s.heap.virt ≤ cr2
    → cr2 < s.stack.virt
    → (s' : Memory) × (page_fault s user_write cr2 phys ≡ some s') × HasMemory s' (floor cr2)
unfolding page_fault
page_fault-HasMemory s cr2 phys laid mapped low top =
    let below : floor cr2 < s.stack.virt = floor-below cr2 s.stack.virt top in
    let small : floor cr2 < low_half_top = floor-below cr2 low_half_top (omega arith) in
    elim (Bool-cases (in_region s.stack (floor cr2))) [
      | inl inside ↦
          let (s', e, h) = assure_stack-inside s (floor cr2) phys small inside mapped.0 in
          (s', rw e, h)
      | inr no_stack ↦ elim (Bool-cases (in_region s.heap (floor cr2))) [
        | inl inside ↦
            let (s', e, h) = assure_heap-inside s (floor cr2) phys small inside mapped.1 in
            (s', rw (assure_stack-outside s (floor cr2) phys no_stack, e), h)
        | inr no_heap ↦
            let (s', e, h) =
              extend-HasMemory s (floor cr2) phys laid mapped (floor-page cr2)
                (floor-above cr2 s.heap.virt laid.heap_page low) below no_stack no_heap in
            (
              s',
              rw (
                assure_stack-outside s (floor cr2) phys no_stack,
                assure_heap-outside s (floor cr2) phys no_heap,
                e,
              ),
              h,
            )
      ]
    ]
