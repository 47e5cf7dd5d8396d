-- ===== src/Kernel/Files/Read.antt =====
-- `fs_read` on a file that is on the device.
use frosk_current.Prelude.{
  ℕ, ◌+◌, ◌-◌, ◌^◌, ◌≤◌, ◌<◌, ◌≡◌, ◌⊎◌, inl, inr, refl, true, false, some, List, [], ◌∷◌, ◌==◌, leb,
  arith, ap, ◌∙◌, length, ◌>>=◌,
}
use frosk_current.Prelude.Words.{add64, sub64}
use frosk_current.Prelude.Memory.{Memory}
use frosk_current.Kernel.Device.{Device, ReadBlocks}
use frosk_current.Kernel.Device.Transfer.{IsHonest}
use frosk_current.Kernel.Files.{
  DataBlock, File, ent_file, size_unknown, is_hooked, is_present, is_virtual, sum_sizes, fs_size,
  at_most, read_blocks, read_sized, fs_read,
}
use frosk_current.Kernel.Files.Blocks.{total, AllUsable, IsRead, read_blocks-IsRead}

-- The file is on the device, not in memory, in the blocks `ns`.
pub record IsOnDisk (e : File) (ns : List DataBlock) : Type 0 where
  pub is_file : e.type ≡ ent_file
  pub not_hooked : is_hooked e ≡ false
  pub not_virtual : is_virtual e ≡ false
  pub not_present : is_present e ≡ false
  pub node : e.blocks ≡ some ns
  pub sized : (e.size ≡ total ns) ⊎ (e.size ≡ size_unknown)

sum_sizes-total :
    (ns : List DataBlock) (size : ℕ)
    → size + total ns < 2 ^ 64
    → sum_sizes ns size ≡ size + total ns
unfolding sum_sizes
sum_sizes-total [] size small = omega arith
sum_sizes-total (n ∷ ns) size small =
    let here : add64 size n.size ≡ size + n.size = omega arith in
    ap (sum_sizes ns) here ∙ sum_sizes-total ns (size + n.size) (omega arith) ∙ omega arith

-- `fs_size` finds the size of the file, and keeps it in the entry.
pub fs_size-total :
    (e : File) (ns : List DataBlock)
    → IsOnDisk e ns
    → total ns < 2 ^ 64 - 1
    → fs_size e ≡ some (total ns, record e { size = total ns })
unfolding fs_size
fs_size-total e ns o small =
    let file : (e.type == ent_file) ≡ true = ground (arith, o.is_file) in
    elim o.sized [
      | inl known ↦
          let test : (e.size == size_unknown) ≡ false = ground (arith, known) in
          rw (file, test) (rw known refl)
      | inr unknown ↦
          let test : (e.size == size_unknown) ≡ true = ground (arith, unknown) in
          let sum : sum_sizes ns 0 ≡ total ns = sum_sizes-total ns 0 (omega arith) ∙ omega arith in
          rw (file, test, o.not_virtual, o.node) (rw sum refl)
    ]

module _ (disk : ℕ → ℕ) (page_size bounce block_size : ℕ) (read : ReadBlocks)
    (honest : IsHonest disk block_size read)
    (all : (m : Memory) (to block n : ℕ) → (read m to block n).0 ≡ n)
    (some_bytes : 0 < block_size) where
  abbrev root_dev : Device
  root_dev = record { read = some read; block_size = block_size }

  read_sized-blocks :
      (f : ℕ) (m m' : Memory) (buf size : ℕ) (e : File) (ns : List DataBlock)
      → IsOnDisk e ns
      → total ns < 2 ^ 64 - 1
      → 0 < total ns
      → 0 < size
      → read_blocks root_dev page_size bounce f m buf 0 (at_most (total ns) size) ns ≡ some (0, m')
      → read_sized root_dev page_size bounce f m buf 0 size (total ns, record e { size = total ns })
        ≡ some (at_most (total ns) size, m', record e { size = total ns })
  unfolding read_sized
  read_sized-blocks f m m' buf size e ns o small full positive run =
      let max : sub64 (total ns) 0 ≡ total ns = omega arith in
      let bytes : (at_most (total ns) size == 0) ≡ false = ground arith in
      let all_read : at_most (total ns) size - 0 ≡ at_most (total ns) size = omega arith in
      rw (max, bytes, o.not_hooked, o.not_present, o.not_virtual, o.node) (rw (run, all_read) refl)

  -- the rest of `fs_read`, once the blocks are read
  fs_read-blocks :
      (f : ℕ) (m m' : Memory) (buf size : ℕ) (e : File) (ns : List DataBlock)
      → IsOnDisk e ns
      → 0 < total ns
      → total ns < 2 ^ 64 - 1
      → 0 < size
      → read_blocks root_dev page_size bounce f m buf 0 (at_most (total ns) size) ns ≡ some (0, m')
      → fs_read root_dev page_size bounce f m buf 0 size e
        ≡ some (at_most (total ns) size, m', record e { size = total ns })
  unfolding fs_read
  fs_read-blocks f m m' buf size e ns o full small positive run =
      let file : (e.type == ent_file) ≡ true = ground (arith, o.is_file) in
      let more : leb e.size 0 ≡ false = elim o.sized [
        | inl known ↦ ground (arith, known)
        | inr unknown ↦ ground (arith, unknown)
      ] in
      rw (file, more)
        (ap (λ x. x >>= λ r. read_sized root_dev page_size bounce f m buf 0 size r)
            (fs_size-total e ns o small)
          ∙ read_sized-blocks f m m' buf size e ns o small full positive run)

  -- `fs_read` from the begin of a file on the device, which has bytes and whose blocks have bytes,
  -- returns the number of bytes asked for, or the size of the file if that is less. The buffer has
  -- as many bytes of the file, block after block, and only the buffers are changed; the entry has the
  -- size. The driver reads every block it is asked for, and the fuel is more than the number of blocks.
  pub fs_read-IsRead :
      (f : ℕ) (m : Memory) (buf size : ℕ) (e : File) (ns : List DataBlock)
      → IsOnDisk e ns
      → AllUsable page_size ns
      → 0 < total ns
      → total ns < 2 ^ 64 - 1
      → 0 < size
      → length ns < f
      → (buf + size ≤ bounce) ⊎ (bounce + block_size ≤ buf)
      → (m' : Memory) × (fs_read root_dev page_size bounce f m buf 0 size e
          ≡ some (at_most (total ns) size, m', record e { size = total ns }))
        × IsRead disk page_size bounce block_size read honest all some_bytes m buf
            (at_most (total ns) size)
            ns
            m'
  fs_read-IsRead f m buf size e ns o usable full small positive fuel apart =
      let most : (at_most (total ns) size ≤ total ns) × (at_most (total ns) size ≤ size) =
        (ground arith, ground arith) in
      let apart' : (buf + at_most (total ns) size ≤ bounce) ⊎ (bounce + block_size ≤ buf) =
        elim apart [ inl h ↦ inl (omega arith) | inr h ↦ inr h ] in
      let (m', run, result) =
        read_blocks-IsRead disk page_size bounce block_size read honest all some_bytes f m buf
          (at_most (total ns) size) ns usable most.0 fuel apart' in
      (m', fs_read-blocks f m m' buf size e ns o full small positive run, result)
