-- ===== src/Kernel/Pages.antt =====
-- `kernel/src/memory/pages.c`: the free ranges of physical or virtual memory, in a circular list.
-- The list is given by the ranges in the order in which the loops visit them: from the one behind
-- `heads[type]` to `heads[type]` itself, which is the last.
pub mod Count
pub mod Free
pub mod Setup
use frosk_current.Prelude.{
  ℕ, ◌+◌, ◌-◌, ◌*◌, ◌%◌, ◌^◌, Bool, true, false, Option, none, some, List, [], ◌∷◌, ◌==◌, ltb, leb,
  not, if◌then◌else◌, ◌>>=◌,
}
use mathlib.Core.Option
use frosk_current.Prelude.Words.{add64}
use frosk_current.Kernel.PageTable.{high_half_bot}
use frosk_current.Kernel.Region.{page_size, align, floor}

-- `pages_t`; the list is linked by `next`
pub record Range : Type 0 where
  pub addr : ℕ
  pub size : ℕ

-- The pointer `heads[type]`: `none` if it does not point to a range, since it is null or since the
-- range was freed.
abbrev pub Pool : Type 0
Pool = Option (List Range)

abbrev pub invalid_page : ℕ
invalid_page = 2 ^ 64 - 1

-- `mmr_t`, an entry of the memory map
pub record MapEntry : Type 0 where
  pub base : ℕ
  pub size : ℕ
  pub type : ℕ

abbrev pub def_stack_loc : ℕ
def_stack_loc = 0x80000

abbrev pub half_size : ℕ
half_size = 0x800000000000

-- the bytes that `setup_pages` leaves out at the begin of an entry
abbrev pub skipped : ℕ → ℕ
skipped base =
    (if ltb base def_stack_loc then def_stack_loc else 0)
    + (if base % page_size == 0 then 0 else page_size - base % page_size)

-- a range that is put behind the head, or that becomes the head
abbrev pub insert : Range → Pool → Pool
insert p none = some (p ∷ [])
insert p (some rs) = some (p ∷ rs)

pub setup_entry : MapEntry → Pool → Pool
setup_entry e pool =
    let diff = skipped e.base in
    if e.type == 1
    then (if ltb diff e.size
        then insert (record { addr = add64 e.base diff; size = floor (e.size - diff) }) pool
        else pool)
    else pool

setup_physical : List MapEntry → Pool → Pool
unfolding setup_entry
setup_physical [] pool = pool
setup_physical (e ∷ es) pool = setup_physical es (setup_entry e pool)

-- the physical and the virtual ranges
pub setup_pages : List MapEntry → Pool × Pool
unfolding setup_physical
setup_pages es =
    (setup_physical es none, some (record { addr = high_half_bot; size = half_size } ∷ []))

-- The list without a range that comes before `ps`. Nothing resets the head if the range is the head.
abbrev pub unlinked : List Range → Pool
unlinked [] = none
unlinked (p ∷ ps) = some (p ∷ ps)

-- the rest of a search, behind a range that it passes
abbrev pub behind : Range → ℕ × Pool → ℕ × Pool
behind p (a, pool) = (a, pool >>= λ ps. some (p ∷ ps))

-- do { ... } while (prev != heads[type])
alloc_loop : List Range → ℕ → Option (ℕ × Pool)
alloc_loop [] size = none
alloc_loop (p ∷ ps) size =
    let rest = alloc_loop ps size in
    if leb size p.size
    then (if p.size == size
        then some (p.addr, unlinked ps)
        else some (
          add64 p.addr (p.size - size),
          some (record { addr = p.addr; size = p.size - size } ∷ ps),
        ))
    else Option.map (behind p) rest

-- The loop needs a head.
unfoldable pub alloc_pgs : Pool → ℕ → Option (ℕ × Pool)
unfolding alloc_loop
alloc_pgs none size = none
alloc_pgs (some rs) size =
    some (elim (alloc_loop rs (align size)) [ none ↦ (invalid_page, some rs) | some r ↦ r ])

free_loop : List Range → (addr size : ℕ) → Option (List Range)
free_loop [] addr size = none
free_loop (p ∷ ps) addr size =
    let rest = free_loop ps addr size in
    if add64 p.addr p.size == addr
    then some (record { addr = p.addr; size = add64 p.size size } ∷ ps)
    else if add64 addr size == p.addr
    then some (record { addr = addr; size = add64 p.size size } ∷ ps)
    else Option.map (λ qs. p ∷ qs) rest

pub free_pgs : Pool → (addr size : ℕ) → Option Pool
unfolding free_loop
free_pgs none addr size = none
free_pgs (some rs) addr size = some (elim (free_loop rs addr (floor size)) [
  | none ↦ some (record { addr = addr; size = floor size } ∷ rs)
  | some qs ↦ some qs
])
