-- ===== src/Kernel/Device/Complete.antt =====
-- `dev_read` on a device that reads every block it is asked for.
use frosk_current.Prelude.{ℕ, ◌+◌, ◌-◌, ◌*◌, ◌/◌, ◌%◌, ◌≡◌, some, arith, ◌==◌, ltb, if◌then◌else◌}
use frosk_current.Prelude.Words.{add64}
use frosk_current.Prelude.Memory.{Memory}
use frosk_current.Cstd.Str.{memcpy}
use frosk_current.Kernel.Device.{
  ReadBlocks, dev_read_tail, dev_read_middle, dev_read_head, dev_read,
}

module _ (block_size bounce osize : ℕ) (read : ReadBlocks)
    (all : (m : Memory) (to block n : ℕ) → (read m to block n).0 ≡ n) where
  tail_all :
      (m : Memory) (b a n : ℕ)
      → (dev_read_tail read block_size bounce osize m b a n).0
        ≡ (if n == 0 then osize - n else osize)
  unfolding dev_read_tail
  tail_all m b a n = ground (arith, all m bounce (a / block_size) 1)

  middle_all :
      (m : Memory) (b a n : ℕ) → (dev_read_middle read block_size bounce osize m b a n).0 ≡ osize
  unfolding dev_read_middle
  middle_all m b a n = ground (
    arith,
    all m b (a / block_size) (n / block_size),
    tail_all m b a n,
    tail_all (read m b (a / block_size) (n / block_size)).1 (b + n / block_size * block_size)
        (add64 a (n / block_size * block_size)) (n - n / block_size * block_size),
  )

  head_all :
      (m : Memory) (b a n : ℕ) → (dev_read_head read block_size bounce osize m b a n).0 ≡ osize
  unfolding dev_read_head
  head_all m b a n =
      let s = if ltb (block_size - a % block_size) n then block_size - a % block_size else n in
      ground (
        arith,
        all m bounce (a / block_size) 1,
        middle_all m b a n,
        middle_all (memcpy (read m bounce (a / block_size) 1).1 b (bounce + a % block_size) s)
            (b + s) (add64 a s) (n - s),
      )

-- If the device never fails, `dev_read` reports all `size` bytes.
pub dev_read-size :
    (m : Memory) (buf addr size bounce block_size : ℕ) (read : ReadBlocks)
    → ((m' : Memory) (to block n : ℕ) → (read m' to block n).0 ≡ n)
    → (dev_read (record { read = some read; block_size = block_size }) m buf addr size bounce).0
      ≡ size
unfolding dev_read
dev_read-size m buf addr size bounce block_size read all =
    ground (arith, head_all block_size bounce size read all m buf addr size)
