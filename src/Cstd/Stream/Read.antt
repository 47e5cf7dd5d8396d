-- ===== src/Cstd/Stream/Read.antt =====
-- What `fread` delivers, and where it leaves the stream.
use frosk_current.Prelude.{ℕ, ◌+◌, ◌^◌, ◌≤◌, ◌<◌, ◌≡◌, ◌⊎◌, inl, List, some, arith, refl, length}
use frosk_current.Prelude.Words.{mul64}
use frosk_current.Prelude.Memory.{Memory}
use frosk_current.Kernel.Device.{Device, ReadBlocks}
use frosk_current.Kernel.Device.Transfer.{IsHonest}
use frosk_current.Kernel.Files.{DataBlock, File, at_most}
use frosk_current.Kernel.Files.Blocks.{total, AllUsable, IsRead}
use frosk_current.Kernel.Files.Read.{IsOnDisk, fs_size-total, fs_read-IsRead}
use frosk_current.Cstd.Stream.{opened, seek_cur, fread}
use frosk_current.Cstd.Stream.Seek.{target, forward, fseek-target}

module _ (disk : ℕ → ℕ) (page_size bounce block_size : ℕ) (read : ReadBlocks)
    (honest : IsHonest disk block_size read)
    (all : (m : Memory) (to block n : ℕ) → (read m to block n).0 ≡ n)
    (some_bytes : 0 < block_size) where
  abbrev root_dev : Device
  root_dev = record { read = some read; block_size = block_size }

  -- A first `fread` from a file on the device delivers the bytes of its begin, as many as are asked for or as it
  -- has, and leaves the stream behind them; but it always returns the number of bytes that were asked for. The driver reads
  -- every block it is asked for, and the fuel is more than the number of blocks.
  pub fread-IsRead :
      (f : ℕ) (m : Memory) (buf n sz : ℕ) (e : File) (ns : List DataBlock)
      → IsOnDisk e ns
      → AllUsable page_size ns
      → 0 < total ns
      → total ns < 2 ^ 63
      → 0 < mul64 n sz
      → mul64 n sz < 2 ^ 63
      → length ns < f
      → (buf + mul64 n sz ≤ bounce) ⊎ (bounce + block_size ≤ buf)
      → (m' : Memory) × (fread root_dev page_size bounce f m buf n sz (opened 0 e)
          ≡ some (
            mul64 n sz,
            m',
            opened (at_most (total ns) (mul64 n sz)) (record e { size = total ns }),
          ))
        × IsRead disk page_size bounce block_size read honest all some_bytes m buf
            (at_most (total ns) (mul64 n sz))
            ns
            m'
  unfolding fread
  fread-IsRead f m buf n sz e ns o usable full small positive long fuel apart =
      let e' : File = record e { size = total ns } in
      let o' : IsOnDisk e' ns = record {
        is_file = o.is_file;
        not_hooked = o.not_hooked;
        not_virtual = o.not_virtual;
        not_present = o.not_present;
        node = o.node;
        sized = inl refl;
      } in
      let (m', run, result) =
        fs_read-IsRead disk page_size bounce block_size read honest all some_bytes f m buf
          (mul64 n sz) e ns o usable full (omega arith) positive fuel apart in
      let moved =
        fseek-target 0 (total ns) e' e' seek_cur (forward (mul64 n sz))
          (fs_size-total e' ns o' (omega arith)) (omega arith) small (omega arith) in
      let end : target 0 (total ns) (forward (mul64 n sz)) ≡ at_most (total ns) (mul64 n sz) =
        ground arith in
      (m', rw (run, moved, end) refl, result)
