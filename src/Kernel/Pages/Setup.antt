-- ===== src/Kernel/Pages/Setup.antt =====
-- The free ranges that `setup_pages` makes of the memory map.
use frosk_current.Prelude.{
  ℕ, ◌+◌, ◌-◌, ◌%◌, ◌^◌, ◌≤◌, ◌<◌, ◌≡◌, refl, true, none, some, List, [], ◌∷◌, ◌==◌, ltb,
  if◌then◌else◌, arith, Bool-cases, inl, inr, ◌⊎◌, ap, ◌∙◌, sym,
}
use mathlib.Core.Path.{subst}
use frosk_current.Prelude.Words.{add64}
use frosk_current.Kernel.Region.{page_size, floor}
use frosk_current.Kernel.Pages.{
  Range, Pool, MapEntry, def_stack_loc, skipped, insert, setup_entry, setup_physical, setup_pages,
}
use frosk_current.Kernel.Pages.Count.{among, count}

-- In how many entries of available memory is an address?
abbrev pub available : List MapEntry → ℕ → ℕ
available [] q = 0
available (e ∷ es) q = (if e.type == 1 then among e.base e.size q else 0) + available es q

-- Every entry ends within the addresses.
abbrev pub AllWithin : List MapEntry → Type 0
AllWithin [] = Unit
AllWithin (e ∷ es) = (e.base + e.size < 2 ^ 64) × AllWithin es

abbrev pub count_pool : Pool → ℕ → ℕ
count_pool none q = 0
count_pool (some rs) q = count rs q

-- Every range begins with a page and has whole pages.
abbrev pub AllPages : List Range → Type 0
AllPages [] = Unit
AllPages (p ∷ ps) = (p.addr % page_size ≡ 0) × (p.size % page_size ≡ 0) × AllPages ps

abbrev pub PoolPages : Pool → Type 0
PoolPages none = Unit
PoolPages (some rs) = AllPages rs

-- The range that is made of an entry is part of it.
among-entry :
    (base size q : ℕ)
    → base + size < 2 ^ 64
    → skipped base < size
    → (among (add64 base (skipped base)) (floor (size - skipped base)) q ≤ among base size q)
      × (q < def_stack_loc → among (add64 base (skipped base)) (floor (size - skipped base)) q ≡ 0)
among-entry base size q top some_left = (ground arith, λ below. ground arith)

ltb-true : (a b : ℕ) → ltb a b ≡ true → a < b
ltb-true a b h = ground arith

abbrev range_of : MapEntry → Range
range_of e = record { addr = add64 e.base (skipped e.base); size = floor (e.size - skipped e.base) }

setup_entry-cases :
    (e : MapEntry) (pool : Pool)
    → (setup_entry e pool ≡ pool)
      ⊎ ((e.type == 1 ≡ true)
          × (skipped e.base < e.size)
          × (setup_entry e pool ≡ insert (range_of e) pool))
unfolding setup_entry
setup_entry-cases e pool = elim (Bool-cases (e.type == 1)) [
  | inr other ↦ inl (rw other)
  | inl memory ↦ elim (Bool-cases (ltb (skipped e.base) e.size)) [
    | inr small ↦ inl (rw (memory, small))
    | inl large ↦ inr (memory, ltb-true (skipped e.base) e.size large, rw (memory, large))
  ]
]

count_pool-insert :
    (p : Range) (pool : Pool) (q : ℕ)
    → count_pool (insert p pool) q ≡ among p.addr p.size q + count_pool pool q
count_pool-insert p none q = omega arith
count_pool-insert p (some rs) q = refl

insert-PoolPages :
    (p : Range) (pool : Pool)
    → p.addr % page_size ≡ 0
    → p.size % page_size ≡ 0
    → PoolPages pool
    → PoolPages (insert p pool)
insert-PoolPages p none a s h = (a, s, tt)
insert-PoolPages p (some rs) a s h = (a, s, h)

setup_entry-count :
    (e : MapEntry) (pool : Pool) (q : ℕ)
    → e.base + e.size < 2 ^ 64
    → (count_pool (setup_entry e pool) q
        ≤ count_pool pool q + (if e.type == 1 then among e.base e.size q else 0))
      × (q < def_stack_loc → count_pool (setup_entry e pool) q ≡ count_pool pool q)
setup_entry-count e pool q top = elim (setup_entry-cases e pool) [
  | inl same ↦
      let c : count_pool (setup_entry e pool) q ≡ count_pool pool q =
        ap (λ x. count_pool x q) same in
      (omega (arith, c), λ _. c)
  | inr (memory, large, made) ↦
      let c : count_pool (setup_entry e pool) q
          ≡ among (range_of e).addr (range_of e).size q + count_pool pool q =
        ap (λ x. count_pool x q) made ∙ count_pool-insert (range_of e) pool q in
      let (part, below) = among-entry e.base e.size q top large in
      let t : (if e.type == 1 then among e.base e.size q else 0) ≡ among e.base e.size q =
        ap (λ x. if x then among e.base e.size q else 0) memory in
      (omega (arith, c, part, t), λ h. omega (arith, c, below h))
]

range_of-pages :
    (base size : ℕ)
    → base + size < 2 ^ 64
    → skipped base < size
    → (add64 base (skipped base) % page_size ≡ 0) × (floor (size - skipped base) % page_size ≡ 0)
range_of-pages base size top large = (ground arith, ground arith)

setup_entry-PoolPages :
    (e : MapEntry) (pool : Pool)
    → e.base + e.size < 2 ^ 64
    → PoolPages pool
    → PoolPages (setup_entry e pool)
setup_entry-PoolPages e pool top pages = elim (setup_entry-cases e pool) [
  | inl same ↦ subst PoolPages (sym same) pages
  | inr (memory, large, made) ↦
      let (a, s) = range_of-pages e.base e.size top large in
      subst PoolPages (sym made) (insert-PoolPages (range_of e) pool a s pages)
]

setup_physical-count :
    (es : List MapEntry) (pool : Pool) (q : ℕ)
    → AllWithin es
    → (count_pool (setup_physical es pool) q ≤ count_pool pool q + available es q)
      × (q < def_stack_loc → count_pool (setup_physical es pool) q ≡ count_pool pool q)
unfolding setup_physical
setup_physical-count [] pool q within = (omega arith, λ _. refl)
setup_physical-count (e ∷ es) pool q (here, within) =
    let (most, below) = setup_entry-count e pool q here in
    let (most', below') = setup_physical-count es (setup_entry e pool) q within in
    (omega (arith, most, most'), λ h. below' h ∙ below h)

setup_physical-PoolPages :
    (es : List MapEntry) (pool : Pool)
    → AllWithin es
    → PoolPages pool
    → PoolPages (setup_physical es pool)
unfolding setup_physical
setup_physical-PoolPages [] pool within pages = pages
setup_physical-PoolPages (e ∷ es) pool (here, within) pages =
    setup_physical-PoolPages es (setup_entry e pool) within
      (setup_entry-PoolPages e pool here pages)

-- The physical ranges are whole pages of available memory, and leave out the first 0x80000 bytes: an
-- address is in no more of them than there are available entries with it in the memory map, and an
-- address of the first bytes is in none. No entry reaches over the last address.
pub setup_pages-available :
    (es : List MapEntry)
    → AllWithin es
    → PoolPages (setup_pages es).0
      × ((q : ℕ) → count_pool (setup_pages es).0 q ≤ available es q)
      × ((q : ℕ) → q < def_stack_loc → count_pool (setup_pages es).0 q ≡ 0)
unfolding setup_pages
setup_pages-available es within = (
  setup_physical-PoolPages es none within tt,
  λ q. let (most, _) = setup_physical-count es none q within in omega (arith, most),
  λ q. let (_, below) = setup_physical-count es none q within in below,
)
