-- ===== src/Kernel/Region/Allocate.antt =====
-- A region from `allocate`, in the page tables.
use frosk_current.Prelude.{
  ℕ, zero, suc, ◌+◌, ◌-◌, ◌*◌, ◌%◌, ◌<◌, ◌≤◌, ◌^◌, ◌≡◌, refl, Bool, true, false, some, [], ◌∷◌, ◌∙◌,
  arith, ◌>>=◌, ap, if◌then◌else◌,
}
use Prim.Native.Nat.{bit_or}
use frosk_current.Prelude.Words.{add64, sub64}
use frosk_current.Kernel.Region.{
  Block, Region, Pages, set_entry, page_size, align, Mapping, rounds, entry_of, map_blocks,
  any_overlap, swapin, allocate, alloc_block, create_block, region_lower,
}
use frosk_current.Kernel.Region.Swap.{in_pages, filled, filled-other, for_pages-filled}

in_pages-below :
    (k virt offset q : ℕ)
    → virt + offset + k * page_size ≤ 2 ^ 64
    → q < virt + offset
    → in_pages k virt offset q ≡ false
in_pages-below zero virt offset q fits h = refl
in_pages-below (suc k) virt offset q fits h =
    ground (arith, in_pages-below k virt (offset + page_size) q)

set_entry-same :
    (m : Pages) (virt offset value : ℕ)
    → virt + offset < 2 ^ 64
    → set_entry m (add64 virt offset) value (virt + offset) ≡ value
set_entry-same m virt offset value h = ground arith

filled-page :
    (k virt offset : ℕ) (value : ℕ → ℕ) (m : Pages) (i q o : ℕ)
    → virt + offset + k * page_size ≤ 2 ^ 64
    → i < k
    → q ≡ virt + offset + i * page_size
    → o ≡ offset + i * page_size
    → filled k virt offset value m q ≡ value o
filled-page zero virt offset value m i q o fits h at off = elim h [ ]
filled-page (suc k) virt offset value m zero q o fits h at off =
    let here : q ≡ virt + offset = omega arith in
    let start : offset ≡ o = omega arith in
    ap (filled (suc k) virt offset value m) here
    ∙ filled-other k virt (offset + page_size) value
        (set_entry m (add64 virt offset) (value offset)) (virt + offset)
        (in_pages-below k virt (offset + page_size) (virt + offset) (omega arith) (omega arith))
    ∙ set_entry-same m virt offset (value offset) (omega arith)
    ∙ ap value start
filled-page (suc k) virt offset value m (suc i) q o fits h at off =
    filled-page k virt (offset + page_size) value (set_entry m (add64 virt offset) (value offset)) i
      q o (omega arith) (omega arith) (omega arith) (omega arith)

map_blocks-page :
    (b : Block) (flags : ℕ) (m : Pages)
    → b.virt % page_size ≡ 0
    → b.virt + rounds b * page_size ≤ 2 ^ 64
    → (m' : Pages) × (map_blocks (b ∷ []) flags m ≡ some m')
      × ((i : ℕ) → i < rounds b → m' (b.virt + i * page_size) ≡ entry_of b flags (i * page_size))
unfolding map_blocks
map_blocks-page b flags m v fits = (
  filled (rounds b) b.virt 0 (entry_of b flags) m,
  ap (λ x. x >>= some) (for_pages-filled (rounds b) b.virt 0 (entry_of b flags) m v refl),
  λ i h.
      filled-page (rounds b) b.virt 0 (entry_of b flags) m i (b.virt + i * page_size)
        (i * page_size) (omega arith) h (omega arith) (omega arith),
)

align-align : (x : ℕ) → x ≤ 2 ^ 63 → align (align (align x)) ≡ align x
align-align x h = ground arith

-- the bounds within which a region of `allocate` does not wrap around
abbrev pub Fits : (virt size : ℕ) → Bool → Type 0
Fits virt size growup =
    (virt % page_size ≡ 0)
    × (0 < size)
    × (size ≤ 2 ^ 62)
    × (if growup then virt + size ≤ 2 ^ 64 - page_size else (size ≤ virt) × (virt < 2 ^ 64))

-- the block that `allocate` creates
abbrev first_block : (virt size : ℕ) → Bool → ℕ → Block
first_block virt size growup phys = record {
  virt = if growup then virt else sub64 virt (align size);
  phys = phys;
  size = align size;
}

allocate-blocks :
    (virt size : ℕ) (growup : Bool) (phys : ℕ)
    → 0 < size
    → size ≤ 2 ^ 62
    → (allocate virt size growup phys).blocks ≡ first_block virt size growup phys ∷ []
unfolding allocate alloc_block create_block
allocate-blocks virt size growup phys positive small = ground arith

first_block-Fits :
    (virt size : ℕ) (growup : Bool) (phys : ℕ)
    → Fits virt size growup
    → let b = first_block virt size growup phys in
      (b.virt % page_size ≡ 0) × (b.virt + rounds b * page_size ≤ 2 ^ 64)
first_block-Fits virt size true phys (v, positive, small, top) = ground arith
first_block-Fits virt size false phys (v, positive, small, top) = ground arith

rounds-first_block :
    (virt size : ℕ) (growup : Bool) (phys i : ℕ)
    → size ≤ 2 ^ 62
    → i * page_size < size
    → i < rounds (first_block virt size growup phys)
rounds-first_block virt size growup phys i small h = ground arith

-- A region that `allocate` made, in either direction, is mapped page by page: `swapin` returns, and
-- the page at each offset below the size has the entry of the physical page at the same offset. The
-- region fits into the addresses, and no other region overlaps it, by the test of the code.
pub allocate-swapin :
    (region : ℕ → Region) (s : Mapping) (r flags virt size : ℕ) (growup : Bool) (phys : ℕ)
    → region r ≡ allocate virt size growup phys
    → Fits virt size growup
    → any_overlap region (region r) s.inside ≡ false
    → (s' : Mapping) × (swapin region s r flags ≡ some (true, s'))
      × ((i : ℕ)
          → i * page_size < size
          → s'.pages (region_lower (region r) + i * page_size)
            ≡ bit_or (add64 phys (i * page_size)) flags)
unfolding swapin allocate
allocate-swapin region s r flags virt size growup phys made (v, positive, small, top) free =
    let fits : Fits virt size growup = (v, positive, small, top) in
    let b = first_block virt size growup phys in
    let (aligned, below) = first_block-Fits virt size growup phys fits in
    let (m', e, page) = map_blocks-page b flags s.pages aligned below in
    (
      record { inside = r ∷ s.inside; pages = m' },
      rw (free, ap (λ x. x.blocks) made ∙ allocate-blocks virt size growup phys positive small, e),
      λ i h.
          ap (λ x. m' (region_lower x + i * page_size)) made
          ∙ page i (rounds-first_block virt size growup phys i small h),
    )
