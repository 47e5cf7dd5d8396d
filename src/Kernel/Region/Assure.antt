-- ===== src/Kernel/Region/Assure.antt =====
-- `assure` and `grow`, on every branch.
use frosk_current.Prelude.{
  ℕ, ◌+◌, ◌-◌, ◌%◌, ◌^◌, ◌≤◌, ◌<◌, ◌≡◌, refl, true, false, some, ◌∷◌, arith, Bool-cases, inl, inr,
  ◌==◌, ap, sym, ◌∙◌, ◌≢◌,
}
use Prim.Native.Nat.{bit_or}
use frosk_current.Kernel.Region.Backed.{
  Covered, Backed, AllMapped, Backed-Covered, has_block-Covered, Covered-has_block,
  AllMapped-set_entry,
}
use frosk_current.Kernel.Region.{
  Block, Region, Pages, pageto, set_entry, page_size, align, floor, in_region, has_block, assure,
  grow,
}

-- What `assure` leaves for an address of the region: the address has memory, by one entry of the page tables at most, and
-- all else is kept; every page of the blocks has its entry.
pub record IsAssured (r : Region) (m : Pages) (addr flags phys : ℕ) (r' : Region) (m' : Pages)
    : Type 0 where
  pub backed : Backed flags m' r'.blocks addr
  pub mapped : AllMapped flags m' r'.blocks
  pub keeps : (a : ℕ) → Covered r.blocks a → Covered r'.blocks a
  pub maps : (Covered r.blocks addr → ⊥) → m' (floor addr) ≡ bit_or phys flags
  pub reuses : Covered r.blocks addr → (r' ≡ r) × (m' ≡ m)
  pub spares : (q : ℕ) → q ≢ floor addr → m' q ≡ m q

-- `assure` returns 0 and changes nothing if the address is not in the region.
pub assure-outside :
    (r : Region) (m : Pages) (addr flags phys : ℕ)
    → in_region r addr ≡ false
    → assure r m addr flags phys ≡ some (false, r, m)
unfolding assure
assure-outside r m addr flags phys out = rw out

pageto-floor :
    (m : Pages) (addr value : ℕ)
    → pageto m (floor addr) value ≡ some (set_entry m (floor addr) value)
unfolding pageto
pageto-floor m addr value = ground arith

true_not_false : (true ≡ false) → ⊥
true_not_false e = absurd (ground (arith, e))

-- the block that `assure` adds
abbrev new_block : (addr phys : ℕ) → Block
new_block addr phys = record { virt = floor addr; phys = phys; size = page_size }

new_block-mapped :
    (m : Pages) (addr flags phys a : ℕ)
    → floor addr ≤ a
    → a < floor addr + page_size
    → set_entry m (floor addr) (bit_or phys flags) (floor a)
      ≡ bit_or (phys + (floor a - floor addr)) flags
new_block-mapped m addr flags phys a lo hi =
    let same : floor a ≡ floor addr = ground arith in
    let test : (floor a == floor addr) ≡ true = ground (arith, same) in
    let none_left : phys ≡ phys + (floor a - floor addr) = omega (arith, same) in
    rw test (ap (λ x. bit_or x flags) none_left)

-- `assure` that adds a block
assure-new_block :
    (r : Region) (m : Pages) (addr flags phys : ℕ)
    → addr < 2 ^ 64 - page_size
    → (Covered r.blocks addr → ⊥)
    → AllMapped flags m r.blocks
    → IsAssured r m addr flags phys
        (record r { blocks = new_block addr phys ∷ r.blocks })
        (set_entry m (floor addr) (bit_or phys flags))
assure-new_block r m addr flags phys small out mapped =
    let low : floor addr ≤ addr = ground arith in
    let high : addr < floor addr + page_size = ground arith in
    record {
      backed = inl (low, high, new_block-mapped m addr flags phys addr low high);
      mapped = (
        ground arith,
        omega arith,
        omega arith,
        λ a. new_block-mapped m addr flags phys a,
        AllMapped-set_entry flags m r.blocks addr (bit_or phys flags) out mapped,
      );
      keeps = λ a h. inr h;
      maps = λ h. ground arith;
      reuses = λ h. absurd (out h);
      spares = λ q ne. ground arith;
    }

pub assure-IsAssured :
    (r : Region) (m : Pages) (addr flags phys : ℕ)
    → addr < 2 ^ 64 - page_size
    → in_region r addr ≡ true
    → AllMapped flags m r.blocks
    → (r' : Region) × (m' : Pages) × (assure r m addr flags phys ≡ some (true, r', m'))
      × IsAssured r m addr flags phys r' m'
unfolding assure
assure-IsAssured r m addr flags phys small inside mapped =
    elim (Bool-cases (has_block r.blocks addr)) [
      | inl there ↦
          let covered = has_block-Covered r.blocks addr there in
          (
            r,
            m,
            rw (inside, there),
            record {
              backed = Backed-Covered flags m r.blocks addr mapped covered;
              mapped = mapped;
              keeps = λ a h. h;
              maps = λ h. absurd (h covered);
              reuses = λ _. (refl, refl);
              spares = λ q _. refl;
            },
          )
      | inr not_there ↦
          let out : Covered r.blocks addr → ⊥ = λ c.
            absurd (
              true_not_false
                (sym (Covered-has_block flags m r.blocks addr mapped c) ∙ not_there)) in
          (
            record r { blocks = new_block addr phys ∷ r.blocks },
            set_entry m (floor addr) (bit_or phys flags),
            rw (inside, not_there, pageto-floor m addr (bit_or phys flags)),
            assure-new_block r m addr flags phys small out mapped,
          )
    ]

pub grow_up :
    (r : Region) (to : ℕ)
    → r.growup ≡ true
    → r.virt + r.size < to
    → to < 2 ^ 63
    → grow r to ≡ some (record r { size = align (to - r.virt) })
unfolding grow
grow_up r to up above small = ground arith

pub grow_down :
    (r : Region) (to : ℕ)
    → r.growup ≡ false
    → to + r.size < r.virt
    → r.virt < 2 ^ 63
    → grow r to ≡ some (record r { size = align (r.virt - to) })
unfolding grow
grow_down r to down below small = ground arith

pub grown_up-inside :
    (r : Region) (page : ℕ)
    → r.growup ≡ true
    → r.virt % page_size ≡ 0
    → page % page_size ≡ 0
    → r.virt ≤ page
    → page < 2 ^ 62
    → in_region (record r { size = align (page + page_size - r.virt) }) page ≡ true
unfolding in_region
grown_up-inside r page up v p low small = ground arith

pub grown_down-inside :
    (r : Region) (page : ℕ)
    → r.growup ≡ false
    → r.virt % page_size ≡ 0
    → page % page_size ≡ 0
    → page < r.virt
    → r.virt < 2 ^ 62
    → in_region (record r { size = align (r.virt - page) }) page ≡ true
unfolding in_region
grown_down-inside r page down v p low small = ground arith

pub outside_up :
    (r : Region) (a : ℕ)
    → r.growup ≡ true
    → r.virt ≤ a
    → r.virt + r.size < 2 ^ 64
    → in_region r a ≡ false
    → r.virt + r.size ≤ a
unfolding in_region
outside_up r a up low small out = ground arith

pub outside_down :
    (r : Region) (a : ℕ)
    → r.growup ≡ false
    → a < r.virt
    → r.size ≤ r.virt
    → r.virt < 2 ^ 64
    → in_region r a ≡ false
    → a + r.size < r.virt
unfolding in_region
outside_down r a down below fits small out = ground arith
