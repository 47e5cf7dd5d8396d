-- ===== src/Kernel/PageTable.antt =====
-- `get_entry` of `kernel/src/paging.c`: where in a table the entry for an address stands.
pub mod Indices
use frosk_current.Prelude.{ℕ, ◌*◌, ◌/◌, ◌%◌, ◌^◌}
use frosk_current.Prelude.Words.{add64, mul64, sub64}
use frosk_current.Prelude.{leb, if◌then◌else◌}

-- The entries have 8 bytes, so `LSHIFT` is 3.
unfoldable pub get_entry : (addr tbl shf : ℕ) → ℕ
get_entry addr tbl shf = add64 tbl (mul64 (addr / 2 ^ shf) 8 % 0x1000)

abbrev pub high_half_bot : ℕ
high_half_bot = 0xFFFF800000000000

abbrev pub non_canon_size : ℕ
non_canon_size = 0xFFFF000000000000

-- the first step of `getpage`: an address of the high half without its sign extension
unfoldable pub canonical : ℕ → ℕ
canonical virt = if leb high_half_bot virt then sub64 virt non_canon_size else virt
