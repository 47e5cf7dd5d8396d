-- ===== src/Kernel/Device.antt =====
-- `dev_read` of `kernel/src/dev/dev.c`: reading any range of bytes from a device that transfers
-- whole blocks.
pub mod Complete
pub mod Transfer
use frosk_current.Prelude.{ℕ, ◌+◌, ◌-◌, ◌*◌, ◌/◌, ◌%◌, Option, none, some, ◌==◌, ltb, if◌then◌else◌}
use frosk_current.Prelude.Words.{add64}
use frosk_current.Prelude.Memory.{Memory}
use frosk_current.Cstd.Str.{memcpy}

-- What the function pointer `read` does to memory for the arguments `data`, `block` and `count`. It
-- returns the number of blocks.
abbrev pub ReadBlocks : Type 0
ReadBlocks = Memory → (to block count : ℕ) → ℕ × Memory

-- the part of `device_t` that `dev_read` uses; `none` is a null pointer
pub record Device : Type 0 where
  pub read : Option ReadBlocks
  pub block_size : ℕ

module _ (read : ReadBlocks) (block_size bounce osize : ℕ) where
  -- the last part, which does not fill a block; at the label `ret`, `osize - size` is returned
  dev_read_tail : Memory → (buf addr size : ℕ) → ℕ × Memory
  dev_read_tail m buf addr size =
      if size == 0
      then (osize - size, m)
      else let (got, m') = read m bounce (addr / block_size) 1 in
        if got == 0 then (osize - size, m') else (osize, memcpy m' buf bounce size)

  -- the whole blocks
  dev_read_middle : Memory → (buf addr size : ℕ) → ℕ × Memory
  dev_read_middle m buf addr size =
      let s = size / block_size in
      let n = s * block_size in
      if s == 0
      then dev_read_tail m buf addr size
      else let (got, m') = read m buf (addr / block_size) s in
        if got == s
        then dev_read_tail m' (buf + n) (add64 addr n) (size - n)
        else (osize - size, m')

  -- the first part, if it does not begin at a block
  dev_read_head : Memory → (buf addr size : ℕ) → ℕ × Memory
  dev_read_head m buf addr size =
      let t = addr % block_size in
      let s = if ltb (block_size - t) size then block_size - t else size in
      if t == 0
      then dev_read_middle m buf addr size
      else let (got, m') = read m bounce (addr / block_size) 1 in
        if got == 0
        then (osize - size, m')
        else dev_read_middle (memcpy m' buf (bounce + t) s) (buf + s) (add64 addr s) (size - s)

-- `bounce` is what `kalloc (block_size)` returns, if it is called. The block goes back to the kernel
-- heap at the end.
pub dev_read : Device → Memory → (buf addr size bounce : ℕ) → ℕ × Memory
dev_read d m buf addr size bounce = elim d.read [
  | none ↦ (0, m)
  | some read ↦
      if size == 0 then (0, m) else dev_read_head read d.block_size bounce size m buf addr size
]
