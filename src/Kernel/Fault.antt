-- ===== src/Kernel/Fault.antt =====
-- `page_fault` of `kernel/src/paging.c`, for the regions of the current thread. `none` is a call that
-- does not return: a failed assertion, or a fault that the code cannot handle.
pub mod Resolved
use frosk_current.Prelude.{
  ℕ, ◌+◌, ◌/◌, Bool, true, false, Option, none, some, ◌==◌, ltb, if◌then◌else◌, not, ◌>>=◌,
}
use frosk_current.Prelude.Words.{add64}
use frosk_current.Kernel.Region.{Region, Pages, page_size, floor, grow, assure}

abbrev pub low_half_top : ℕ
low_half_top = 0x800000000000

-- `ERROR_WRITE | ERROR_USER`
abbrev pub user_write : ℕ
user_write = 6

-- the stack of the thread, the code region of its process, and the page tables
pub record Memory : Type 0 where
  pub stack : Region
  pub heap : Region
  pub pages : Pages

-- `assure` on the stack and on the heap; `phys` is what `alloc_pgs` returns
pub assure_stack : Memory → (page phys : ℕ) → Option (Bool × Memory)
unfolding assure
assure_stack s page phys = do
  (there, stack, m) ← assure s.stack s.pages page 7 phys
  some (there, record { stack = stack; heap = s.heap; pages = m })

pub assure_heap : Memory → (page phys : ℕ) → Option (Bool × Memory)
unfolding assure
assure_heap s page phys = do
  (there, heap, m) ← assure s.heap s.pages page 7 phys
  some (there, record { stack = s.stack; heap = heap; pages = m })

-- Neither region has the page: the one that is presumed to grow is made larger.
pub extend : Memory → (page phys : ℕ) → Option Memory
unfolding assure_stack assure_heap grow
extend s page phys =
    if ltb page (low_half_top / 2)
    then (grow s.heap (add64 page page_size) >>= λ heap.
        assure_heap (record s { heap = heap }) page phys >>= λ r. some r.1)
    else (grow s.stack page >>= λ stack.
        assure_stack (record s { stack = stack }) page phys >>= λ r. some r.1)

pub page_fault : Memory → (error cr2 phys : ℕ) → Option Memory
unfolding assure_stack assure_heap extend
page_fault s error cr2 phys =
    let page = floor cr2 in
    if not (error == user_write)
    then none
    else (assure_stack s page phys >>= λ (there, s').
        if there
        then some s'
        else (assure_heap s' page phys >>= λ (found, s'').
            if found then some s'' else extend s'' page phys))
