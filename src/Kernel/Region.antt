-- ===== src/Kernel/Region.antt =====
-- `kernel/src/memory/region.c`: the code, heap and stack regions of a process. A region has blocks
-- of physical memory, in a list that only it owns. The addresses that the page allocator
-- (`alloc_pgs`) returns are arguments, and `none` is a failed assertion.
pub mod Assure
pub mod Backed
pub mod Overlap
pub mod Allocate
pub mod Shift
pub mod Swap
use Prim.Native.Nat.{bit_or}
use mathlib.Core.List.{map}
use mathlib.Core.Option
use frosk_current.Prelude.{
  ℕ, zero, suc, ◌+◌, ◌-◌, ◌*◌, ◌/◌, ◌%◌, ◌^◌, Bool, true, false, Option, none, some, List, [], ◌∷◌,
  ◌==◌, ltb, leb, if◌then◌else◌, ◌&&◌, ◌||◌, not, ◌>>=◌,
}
use frosk_current.Prelude.Words.{add64, sub64}

abbrev pub page_size : ℕ
page_size = 0x1000

abbrev pub align : ℕ → ℕ
align x = if x % page_size == 0 then x else (x - x % page_size + page_size) % 2 ^ 64

abbrev pub floor : ℕ → ℕ
floor x = if x % page_size == 0 then x else x - x % page_size

-- `block_t`; the list is linked by `next`
pub record Block : Type 0 where
  pub virt : ℕ
  pub phys : ℕ
  pub size : ℕ

-- `region_t`, without the field `last`, which no function reads
pub record Region : Type 0 where
  pub virt : ℕ
  pub size : ℕ
  pub blocks : List Block
  pub growup : Bool

abbrev pub region_lower : Region → ℕ
region_lower r = if r.growup then r.virt else sub64 r.virt r.size

abbrev pub region_upper : Region → ℕ
region_upper r = if r.growup then add64 r.virt r.size else r.virt

-- a null pointer is the empty list
pub create_block : (virt phys size : ℕ) → List Block
create_block virt phys size =
    if ltb 0 size then record { virt = virt; phys = phys; size = align size } ∷ [] else []

-- `phys` is what `alloc_pgs` returns for the aligned size
pub alloc_block : (virt size phys : ℕ) → List Block
alloc_block virt size phys = create_block virt phys (align size)

pub construct : (virt phys size : ℕ) → Bool → Region
unfolding create_block
construct virt phys size growup = record {
  virt = virt;
  size = align size;
  blocks = create_block virt phys (align size);
  growup = growup;
}

pub allocate : (virt size : ℕ) → Bool → (phys : ℕ) → Region
unfolding alloc_block create_block
allocate virt size growup phys = record {
  virt = virt;
  size = align size;
  blocks = alloc_block (if growup then virt else sub64 virt (align size)) (align size) phys;
  growup = growup;
}

-- The ranges that are given to `free_pgs`, in order.
pub destroy : Region → List (ℕ × ℕ)
destroy r = map (λ b. (b.phys, b.size)) r.blocks

-- `new_size` is a `long`, given by its bit pattern
unfoldable pub grow : Region → ℕ → Option Region
grow r to =
    let new_size = sub64 to r.virt in
    let negative = leb (2 ^ 63) new_size in
    let size = if r.growup then new_size else sub64 0 new_size in
    if (if r.growup then negative else not negative && not (new_size == 0))
    then none
    else if ltb r.size size
    then some (record r { size = align size })
    else none

unfoldable pub in_region : Region → ℕ → Bool
in_region r addr = leb (region_lower r) addr && ltb addr (region_upper r)

-- the loop of `assure`: does a block hold the address?
pub has_block : List Block → ℕ → Bool
has_block [] addr = false
has_block (b ∷ bs) addr = (leb b.virt addr && ltb addr (add64 b.virt b.size)) || has_block bs addr

-- The page tables: the entry of each page, by the page's address.
abbrev pub Pages : Type 0
Pages = ℕ → ℕ

abbrev pub set_entry : Pages → ℕ → ℕ → Pages
set_entry m virt value q = if q == virt then value else m q

-- `getpage` asserts that the address is a page's.
pub pageto : Pages → ℕ → ℕ → Option Pages
pageto m virt value = if virt % page_size == 0 then some (set_entry m virt value) else none

-- `phys` is what `alloc_pgs` returns, if it is called.
unfoldable pub assure : Region → Pages → (addr flags phys : ℕ) → Option (Bool × Region × Pages)
unfolding in_region has_block alloc_block create_block pageto
assure r m addr flags phys =
    let b : Block = record { virt = floor addr; phys = phys; size = align (align page_size) } in
    if not (in_region r addr)
    then some (false, r, m)
    else if has_block r.blocks addr
    then some (true, r, m)
    else Option.map (λ m'. (true, record r { blocks = b ∷ r.blocks }, m'))
        (pageto m b.virt (bit_or phys flags))

-- `uy` is the lower bound of `y`, as it stands in the code.
pub overlap : Region → Region → Bool
overlap x y =
    let lx = region_lower x in
    let ly = region_lower y in
    let ux = region_upper x in let uy = region_lower y in ltb lx uy && ltb ly ux

-- The regions that are mapped, by their addresses, and the page tables.
pub record Mapping : Type 0 where
  pub inside : List ℕ
  pub pages : Pages

-- for (offset = 0; offset < size; offset += PAGE_SIZE)
pub for_pages : ℕ → (virt offset : ℕ) → (ℕ → ℕ) → Pages → Option Pages
unfolding pageto
for_pages zero virt offset value m = some m
for_pages (suc k) virt offset value m = do
  m' ← pageto m (add64 virt offset) (value offset)
  for_pages k virt (offset + page_size) value m'

-- the number of rounds for a block
abbrev pub rounds : Block → ℕ
rounds b = (b.size + page_size - 1) / page_size

-- the entry of the page at `offset` of a block
abbrev pub entry_of : Block → ℕ → ℕ → ℕ
entry_of b flags offset = bit_or (add64 b.phys offset) flags

pub map_blocks : List Block → ℕ → Pages → Option Pages
unfolding for_pages
map_blocks [] flags m = some m
map_blocks (b ∷ bs) flags m = do
  m' ← for_pages (rounds b) b.virt 0 (entry_of b flags) m
  map_blocks bs flags m'

clear_block : Block → Pages → Option Pages
unfolding for_pages
clear_block b m =
    if b.virt % page_size == 0 then for_pages (rounds b) b.virt 0 (λ offset. 0) m else none

pub clear_blocks : List Block → Pages → Option Pages
unfolding clear_block
clear_blocks [] m = some m
clear_blocks (b ∷ bs) m = do m' ← clear_block b m; clear_blocks bs m'

-- `region` finds a region by its address.
unfoldable pub any_overlap : (ℕ → Region) → Region → List ℕ → Bool
unfolding overlap
any_overlap region r [] = false
any_overlap region r (l ∷ ls) = overlap r (region l) || any_overlap region r ls

pub swapin : (ℕ → Region) → Mapping → (r flags : ℕ) → Option (Bool × Mapping)
unfolding any_overlap map_blocks
swapin region s r flags =
    if any_overlap region (region r) s.inside
    then some (false, s)
    else Option.map (λ m. (true, record { inside = r ∷ s.inside; pages = m }))
        (map_blocks (region r).blocks flags s.pages)

-- the list without the first `r`, if it is there
pub unlink : ℕ → List ℕ → Option (List ℕ)
unlink r [] = none
unlink r (l ∷ ls) = if l == r then some ls else Option.map (λ rest. l ∷ rest) (unlink r ls)

pub swapout : (ℕ → Region) → Mapping → ℕ → Option Mapping
unfolding clear_blocks unlink
swapout region s r = do
  m ← clear_blocks (region r).blocks s.pages
  rest ← unlink r s.inside
  some (record { inside = rest; pages = m })

-- a null pointer is `none`
pub swapflop : (ℕ → Region) → Mapping → (old new : Option ℕ) → (flags : ℕ) → Option (Bool × Mapping)
unfolding swapin swapout
swapflop region s old new flags = do
  s' ← elim old [ none ↦ some s | some r ↦ swapout region s r ]
  elim new [ none ↦ some (true, s') | some r ↦ swapin region s' r flags ]

pub shift_block : ℕ → Block → Block
shift_block diff b = record b { virt = sub64 b.virt diff }

pub shift_rgn : Region → ℕ → Region
unfolding shift_block
shift_rgn r nv =
    let diff = sub64 r.virt nv in record r { virt = nv; blocks = map (shift_block diff) r.blocks }
