-- ===== src/Kernel/PageTable/Indices.antt =====
-- The four tables that `getpage` walks.
use frosk_current.Prelude.{
  ℕ, ◌+◌, ◌*◌, ◌/◌, ◌%◌, ◌^◌, ◌<◌, ◌≤◌, ◌≡◌, ◌⊎◌, inl, inr, sym, ◌∙◌, arith,
}
use frosk_current.Kernel.PageTable.{get_entry, canonical, high_half_bot}

-- An entry stands inside its table of one page, at a multiple of 8 bytes: number
-- `addr / 2 ^ shf % 512` of the table.
pub get_entry-index :
    (addr tbl shf : ℕ)
    → tbl + 0x1000 ≤ 2 ^ 64
    → get_entry addr tbl shf ≡ tbl + addr / 2 ^ shf % 512 * 8
unfolding get_entry
get_entry-index addr tbl shf h = omega arith

-- the number of an address's entry, level by level, as one number
abbrev path : ℕ → ℕ
path a =
    ((a / 2 ^ 39 % 512 * 512 + a / 2 ^ 30 % 512) * 512 + a / 2 ^ 21 % 512) * 512 + a / 2 ^ 12 % 512

path-page : (a : ℕ) → a < 2 ^ 48 → path a ≡ a / 2 ^ 12
path-page a h = omega arith

index_of_entry :
    (a b tbl shf : ℕ)
    → tbl + 0x1000 ≤ 2 ^ 64
    → get_entry a tbl shf ≡ get_entry b tbl shf
    → a / 2 ^ shf % 512 ≡ b / 2 ^ shf % 512
index_of_entry a b tbl shf ht h =
    omega (arith, get_entry-index a tbl shf ht, get_entry-index b tbl shf ht)

-- An address that the processor accepts: of the low half, or of the high half.
abbrev pub IsCanonical : ℕ → Type 0
IsCanonical a = (a < 2 ^ 47) ⊎ (high_half_bot ≤ a) × (a < 2 ^ 64)

canonical_lem : (a : ℕ) → IsCanonical a → (canonical a < 2 ^ 48) × (canonical a ≡ a % 2 ^ 48)
unfolding canonical
canonical_lem a (inl h) = ground arith
canonical_lem a (inr h) = ground arith

eq_page :
    (a b : ℕ)
    → IsCanonical a
    → IsCanonical b
    → canonical a / 2 ^ 12 ≡ canonical b / 2 ^ 12
    → a / 0x1000 ≡ b / 0x1000
eq_page a b (inl h) (inl k) e = omega (arith, canonical_lem a (inl h), canonical_lem b (inl k))
eq_page a b (inl h) (inr k) e = omega (arith, canonical_lem a (inl h), canonical_lem b (inr k))
eq_page a b (inr h) (inl k) e = omega (arith, canonical_lem a (inr h), canonical_lem b (inl k))
eq_page a b (inr h) (inr k) e = omega (arith, canonical_lem a (inr h), canonical_lem b (inr k))

-- Two canonical addresses take the same path through the four tables, whatever tables `tbl` they
-- meet, only if they lie on one page.
pub get_entry-injective :
    (a b tbl : ℕ)
    → IsCanonical a
    → IsCanonical b
    → tbl + 0x1000 ≤ 2 ^ 64
    → get_entry (canonical a) tbl 39 ≡ get_entry (canonical b) tbl 39
    → get_entry (canonical a) tbl 30 ≡ get_entry (canonical b) tbl 30
    → get_entry (canonical a) tbl 21 ≡ get_entry (canonical b) tbl 21
    → get_entry (canonical a) tbl 12 ≡ get_entry (canonical b) tbl 12
    → a / 0x1000 ≡ b / 0x1000
get_entry-injective a b tbl ha hb ht h1 h2 h3 h4 =
    eq_page a b ha hb
      (same (canonical a) (canonical b) (canonical_lem a ha).0 (canonical_lem b hb).0 h1 h2 h3 h4)
  where
    same :
        (x y : ℕ)
        → x < 2 ^ 48
        → y < 2 ^ 48
        → get_entry x tbl 39 ≡ get_entry y tbl 39
        → get_entry x tbl 30 ≡ get_entry y tbl 30
        → get_entry x tbl 21 ≡ get_entry y tbl 21
        → get_entry x tbl 12 ≡ get_entry y tbl 12
        → x / 2 ^ 12 ≡ y / 2 ^ 12
    same x y hx hy e1 e2 e3 e4 =
        sym (path-page x hx)
        ∙ rw
            (
              index_of_entry x y tbl 39 ht e1,
              index_of_entry x y tbl 30 ht e2,
              index_of_entry x y tbl 21 ht e3,
              index_of_entry x y tbl 12 ht e4,
            )
            (path-page y hy)
