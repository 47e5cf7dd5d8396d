-- ===== src/Kernel/Region/Backed.antt =====
-- Which addresses of a region have memory: a block holds them, and the page tables lead to its bytes.
use Prim.Native.Nat.{bit_or}
use frosk_current.Prelude.{
  ℕ, ◌+◌, ◌-◌, ◌%◌, ◌^◌, ◌≤◌, ◌<◌, ◌≡◌, ◌⊎◌, inl, inr, true, List, [], ◌∷◌, ◌==◌, ltb, leb, ◌&&◌,
  arith, Bool-cases,
}
use frosk_current.Prelude.Words.{add64}
use frosk_current.Kernel.Region.{Block, Pages, set_entry, page_size, floor, has_block}

-- the address is one of a block
abbrev pub Covered : List Block → ℕ → Type 0
Covered [] a = ⊥
Covered (b ∷ bs) a = ((b.virt ≤ a) × (a < b.virt + b.size)) ⊎ Covered bs a

-- The address is one of a block, and the entry of its page has the address in physical memory that belongs to it.
abbrev pub Backed : (flags : ℕ) → Pages → List Block → ℕ → Type 0
Backed flags m [] a = ⊥
Backed flags m (b ∷ bs) a =
    ((b.virt ≤ a)
      × (a < b.virt + b.size)
      × (m (floor a) ≡ bit_or (b.phys + (floor a - b.virt)) flags))
    ⊎ Backed flags m bs a

-- The blocks are whole pages, and every page of them has its entry.
abbrev pub AllMapped : (flags : ℕ) → Pages → List Block → Type 0
AllMapped flags m [] = 0 < 1
AllMapped flags m (b ∷ bs) =
    (b.virt % page_size ≡ 0)
    × (b.size % page_size ≡ 0)
    × (b.virt + b.size < 2 ^ 64)
    × ((a : ℕ)
        → b.virt ≤ a
        → a < b.virt + b.size
        → m (floor a) ≡ bit_or (b.phys + (floor a - b.virt)) flags)
    × AllMapped flags m bs

pub Backed-Covered :
    (flags : ℕ) (m : Pages) (bs : List Block) (a : ℕ)
    → AllMapped flags m bs
    → Covered bs a
    → Backed flags m bs a
Backed-Covered flags m [] a mapped covered = covered
Backed-Covered flags m (b ∷ bs) a (_, _, _, entries, mapped) covered = elim covered [
  | inl (lo, hi) ↦ inl (lo, hi, entries a lo hi)
  | inr later ↦ inr (Backed-Covered flags m bs a mapped later)
]

pub has_block-Covered : (bs : List Block) (a : ℕ) → has_block bs a ≡ true → Covered bs a
unfolding has_block
has_block-Covered [] a h = absurd (ground (arith, h))
has_block-Covered (b ∷ bs) a h = elim (Bool-cases (leb b.virt a && ltb a (add64 b.virt b.size))) [
  | inl e ↦ inl (ground (arith, e), ground (arith, e))
  | inr e ↦ inr (has_block-Covered bs a (ground (arith, h, e)))
]

pub Covered-has_block :
    (flags : ℕ) (m : Pages) (bs : List Block) (a : ℕ)
    → AllMapped flags m bs
    → Covered bs a
    → has_block bs a ≡ true
unfolding has_block
Covered-has_block flags m [] a mapped covered = absurd covered
Covered-has_block flags m (b ∷ bs) a (_, _, room, _, mapped) covered = elim covered [
  | inl (lo, hi) ↦ ground (arith, lo, hi, room)
  | inr later ↦ ground (arith, Covered-has_block flags m bs a mapped later)
]

-- Whole pages that have one address of a page have all of them.
same_page :
    (lo size a addr : ℕ)
    → lo % page_size ≡ 0
    → size % page_size ≡ 0
    → lo ≤ a
    → a < lo + size
    → floor a ≡ floor addr
    → (lo ≤ addr) × (addr < lo + size)
same_page lo size a addr whole pages above below same = (ground arith, ground arith)

eq_of : (x y : ℕ) → (x == y) ≡ true → x ≡ y
eq_of x y e = ground (arith, e)

-- An entry for a page that no block has leaves the pages of the blocks as they are.
pub AllMapped-set_entry :
    (flags : ℕ) (m : Pages) (bs : List Block) (addr value : ℕ)
    → (Covered bs addr → ⊥)
    → AllMapped flags m bs
    → AllMapped flags (set_entry m (floor addr) value) bs
AllMapped-set_entry flags m [] addr value out mapped = mapped
AllMapped-set_entry flags m (b ∷ bs) addr value out (whole, pages, room, entries, mapped) = (
  whole,
  pages,
  room,
  λ a lo hi. elim (Bool-cases (floor a == floor addr)) [
    | inl e ↦ absurd (
        out
          (inl (same_page b.virt b.size a addr whole pages lo hi (eq_of (floor a) (floor addr) e))))
    | inr e ↦ rw e (entries a lo hi)
  ],
  AllMapped-set_entry flags m bs addr value (λ c. out (inr c)) mapped,
)
