-- ===== src/Kernel/Region/Swap.antt =====
-- `swapin`, and the `swapout` that undoes it.
use frosk_current.Prelude.{
  ℕ, zero, suc, ◌+◌, ◌%◌, ◌≡◌, refl, Bool, true, false, some, List, [], ◌∷◌, ◌==◌, ◌||◌, ◌∙◌,
  if◌then◌else◌, arith, ◌>>=◌, ap,
}
use frosk_current.Prelude.Words.{add64}
use frosk_current.Kernel.Region.{
  Block, Region, Pages, pageto, set_entry, page_size, Mapping, for_pages, rounds, entry_of,
  map_blocks, clear_block, clear_blocks, any_overlap, swapin, swapout, unlink,
}

-- Is `q` one of the `k` page addresses from `virt + offset` on?
abbrev pub in_pages : ℕ → (virt offset q : ℕ) → Bool
in_pages zero virt offset q = false
in_pages (suc k) virt offset q = q == add64 virt offset || in_pages k virt (offset + page_size) q

-- Is `q` the address of a page of a block?
abbrev pub is_mapped : List Block → ℕ → Bool
is_mapped [] q = false
is_mapped (b ∷ bs) q = in_pages (rounds b) b.virt 0 q || is_mapped bs q

-- Every block begins with a page.
abbrev pub AllAligned : List Block → Type 0
AllAligned [] = Unit
AllAligned (b ∷ bs) = (b.virt % page_size ≡ 0) × AllAligned bs

-- the page tables after `for_pages`
abbrev pub filled : ℕ → (virt offset : ℕ) → (ℕ → ℕ) → Pages → Pages
filled zero virt offset value m = m
filled (suc k) virt offset value m =
    filled k virt (offset + page_size) value (set_entry m (add64 virt offset) (value offset))

or-false : (a b : Bool) → a || b ≡ false → (a ≡ false) × (b ≡ false)
or-false true b h = ground arith
or-false false b h = (refl, h)

if-or : (a b : Bool) (n : ℕ) → (if b then 0 else (if a then 0 else n)) ≡ (if a || b then 0 else n)
if-or true true n = refl
if-or true false n = refl
if-or false b n = refl

if-out : {x y : ℕ} (b : Bool) → (b ≡ false → x ≡ y) → (if b then 0 else x) ≡ (if b then 0 else y)
if-out true same = refl
if-out false same = same refl

pageto-aligned :
    (m : Pages) (virt value : ℕ)
    → virt % page_size ≡ 0
    → pageto m virt value ≡ some (set_entry m virt value)
unfolding pageto
pageto-aligned m virt value h = ground arith

pub for_pages-filled :
    (k virt offset : ℕ) (value : ℕ → ℕ) (m : Pages)
    → virt % page_size ≡ 0
    → offset % page_size ≡ 0
    → for_pages k virt offset value m ≡ some (filled k virt offset value m)
unfolding for_pages
for_pages-filled zero virt offset value m v o = refl
for_pages-filled (suc k) virt offset value m v o =
    ap (λ x. x >>= λ m'. for_pages k virt (offset + page_size) value m')
      (pageto-aligned m (add64 virt offset) (value offset) (omega arith))
    ∙ for_pages-filled k virt (offset + page_size) value
        (set_entry m (add64 virt offset) (value offset)) v (omega arith)

pub filled-other :
    (k virt offset : ℕ) (value : ℕ → ℕ) (m : Pages) (q : ℕ)
    → in_pages k virt offset q ≡ false
    → filled k virt offset value m q ≡ m q
filled-other zero virt offset value m q h = refl
filled-other (suc k) virt offset value m q h = ground (
  arith,
  filled-other k virt (offset + page_size) value (set_entry m (add64 virt offset) (value offset)) q,
)

filled-zero :
    (k virt offset : ℕ) (m : Pages) (q : ℕ)
    → filled k virt offset (λ _. 0) m q ≡ (if in_pages k virt offset q then 0 else m q)
filled-zero zero virt offset m q = refl
filled-zero (suc k) virt offset m q =
    ground (arith, filled-zero k virt (offset + page_size) (set_entry m (add64 virt offset) 0) q)

-- `map_blocks` returns, and touches no page outside the blocks.
map_blocks-other :
    (bs : List Block) (flags : ℕ) (m : Pages)
    → AllAligned bs
    → (m' : Pages) × (map_blocks bs flags m ≡ some m')
      × ((q : ℕ) → is_mapped bs q ≡ false → m' q ≡ m q)
unfolding map_blocks
map_blocks-other [] flags m h = (m, refl, λ q _. refl)
map_blocks-other (b ∷ bs) flags m (v, h) =
    let (m', e, o) =
      map_blocks-other bs flags (filled (rounds b) b.virt 0 (entry_of b flags) m) h in
    (
      m',
      ap (λ x. x >>= λ m'. map_blocks bs flags m')
            (for_pages-filled (rounds b) b.virt 0 (entry_of b flags) m v refl)
          ∙ e,
      λ q out.
          let (here, rest) = or-false (in_pages (rounds b) b.virt 0 q) (is_mapped bs q) out in
          o q rest ∙ filled-other (rounds b) b.virt 0 (entry_of b flags) m q here,
    )

clear_block-filled :
    (b : Block) (m : Pages)
    → b.virt % page_size ≡ 0
    → clear_block b m ≡ some (filled (rounds b) b.virt 0 (λ _. 0) m)
unfolding clear_block
clear_block-filled b m v = ground (arith, for_pages-filled (rounds b) b.virt 0 (λ _. 0) m v refl)

clear_blocks-zero :
    (bs : List Block) (m : Pages)
    → AllAligned bs
    → (m' : Pages) × (clear_blocks bs m ≡ some m')
      × ((q : ℕ) → m' q ≡ (if is_mapped bs q then 0 else m q))
unfolding clear_blocks
clear_blocks-zero [] m h = (m, refl, λ q. refl)
clear_blocks-zero (b ∷ bs) m (v, h) =
    let (m', e, z) = clear_blocks-zero bs (filled (rounds b) b.virt 0 (λ _. 0) m) h in
    (
      m',
      ap (λ x. x >>= λ m'. clear_blocks bs m') (clear_block-filled b m v) ∙ e,
      λ q.
          z q
          ∙ ap (λ n. if is_mapped bs q then 0 else n) (filled-zero (rounds b) b.virt 0 m q)
          ∙ if-or (in_pages (rounds b) b.virt 0 q) (is_mapped bs q) (m q),
    )

unlink-first : (r : ℕ) (ls : List ℕ) → unlink r (r ∷ ls) ≡ some ls
unfolding unlink
unlink-first r ls = ground arith

-- If no region that is mapped overlaps, by the test of the code, and the blocks begin with pages,
-- `swapin` maps the region, and `swapout` takes it out again: both return, the list is the one
-- before, the pages of the blocks are cleared, and all other pages are as before, also while the
-- region is mapped.
pub swapout-swapin :
    (region : ℕ → Region) (s : Mapping) (r flags : ℕ)
    → AllAligned (region r).blocks
    → any_overlap region (region r) s.inside ≡ false
    → (s' s'' : Mapping) × (swapin region s r flags ≡ some (true, s'))
      × ((q : ℕ) → is_mapped (region r).blocks q ≡ false → s'.pages q ≡ s.pages q)
      × (swapout region s' r ≡ some s'')
      × (s''.inside ≡ s.inside)
      × ((q : ℕ) → s''.pages q ≡ (if is_mapped (region r).blocks q then 0 else s.pages q))
unfolding swapin swapout
swapout-swapin region s r flags aligned free =
    let (m', e', o) = map_blocks-other (region r).blocks flags s.pages aligned in
    let (m'', e'', z) = clear_blocks-zero (region r).blocks m' aligned in
    (
      record { inside = r ∷ s.inside; pages = m' },
      record { inside = s.inside; pages = m'' },
      rw (free, e'),
      o,
      rw (e'', unlink-first r s.inside),
      refl,
      λ q. z q ∙ if-out (is_mapped (region r).blocks q) (o q),
    )
