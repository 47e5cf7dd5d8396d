-- ===== src/Kernel/Files.antt =====
-- Files of `kernel/src/fs/fs.c`: their sizes, reading and writing. The blocks of a file are the nodes
-- that `resolve_node` gives from its first one on, a list that ends with the null pointer. `none` is
-- a call that does not return.
pub mod Blocks
pub mod Read
use mathlib.Core.Option
use frosk_current.Prelude.{
  ℕ, zero, suc, ◌+◌, ◌-◌, ◌*◌, ◌/◌, ◌%◌, ◌^◌, Bool, true, false, Option, none, some, List, [], ◌∷◌,
  ◌==◌, ltb, leb, ◌||◌, not, if◌then◌else◌, ◌>>=◌,
}
use frosk_current.Prelude.Words.{add64, sub64, mul64}
use frosk_current.Prelude.Memory.{Memory}
use frosk_current.Cstd.Str.{memcpy}
use frosk_current.Kernel.Device.{Device, dev_read}

-- `fnode_block_t`
pub record DataBlock : Type 0 where
  pub lba : ℕ
  pub size : ℕ

-- What a hook does to memory for the arguments `buf`, `addr`, `size` and `data`, the last a field of the file.
abbrev pub Hook : Type 0
Hook = Memory → (buf addr size contents : ℕ) → ℕ × Memory

-- `fs_entry_t` of a file; `blocks` is the list behind `node`, if there is a node
pub record File : Type 0 where
  pub type : ℕ
  pub flags : ℕ
  pub contents : ℕ
  pub size : ℕ
  pub read_hook : Option Hook
  pub write_hook : Option Hook
  pub blocks : Option (List DataBlock)

abbrev pub ent_file : ℕ
ent_file = 1

abbrev pub size_unknown : ℕ
size_unknown = 2 ^ 64 - 1

-- the flags FS_ENT_VIRTUAL, FS_ENT_PRESENT and FS_ENT_HOOKED
abbrev pub is_virtual : File → Bool
is_virtual e = e.flags % 2 == 1

abbrev pub is_present : File → Bool
is_present e = e.flags / 2 % 2 == 1

abbrev pub is_hooked : File → Bool
is_hooked e = e.flags / 16 % 2 == 1

pub sum_sizes : List DataBlock → ℕ → ℕ
sum_sizes [] size = size
sum_sizes (n ∷ ns) size = sum_sizes ns (add64 size n.size)

-- the size, and the entry with its size set
pub fs_size : File → Option (ℕ × File)
unfolding sum_sizes
fs_size e =
    if not (e.type == ent_file)
    then none
    else if not (e.size == size_unknown)
    then some (e.size, e)
    else if is_virtual e
    then none
    else Option.map (λ ns. (sum_sizes ns 0, record e { size = sum_sizes ns 0 })) e.blocks

-- The loop of `fs_read` over the blocks of a file, on the device `root_dev`. In its first branch
-- the loop stays at the block. The result has what is left of `rem`.
pub read_blocks :
    (root_dev : Device) (page_size bounce fuel : ℕ)
    → Memory
    → (buf addr rem : ℕ) → List DataBlock
    → Option (ℕ × Memory)
read_blocks d page_size bounce zero m buf addr rem ns = none
read_blocks d page_size bounce (suc f) m buf addr rem [] = some (rem, m)
read_blocks d page_size bounce (suc f) m buf addr rem (n ∷ ns) =
    let a = add64 (mul64 n.lba page_size) addr in
    let s = if ltb rem n.size then rem else n.size in
    let r = dev_read d m buf a s bounce in
    let later = read_blocks d page_size bounce f m buf (addr - n.size) rem (n ∷ ns) in
    let next = read_blocks d page_size bounce f r.1 (buf + s) 0 (rem - s) ns in
    if rem == 0
    then some (rem, m)
    else if leb n.size addr
    then later
    else if r.0 == s
    then next
    else none

-- `max < size ? max : size`
abbrev pub at_most : ℕ → ℕ → ℕ
at_most max size = if ltb max size then max else size

-- the copy of a file that is in memory
abbrev pub read_memory : Memory → (buf addr size : ℕ) → File → ℕ × Memory
read_memory m buf addr size e =
    let size' = if ltb e.size (add64 addr size) then e.size - addr else size in
    if ltb addr e.size then (size', memcpy m buf (e.contents + addr) size') else (size, m)

abbrev pub read_disk :
    (root_dev : Device) (page_size bounce fuel : ℕ)
    → Memory
    → (buf addr size : ℕ) → File
    → Option (ℕ × Memory)
read_disk d page_size bounce f m buf addr size e = e.blocks >>= λ ns.
    read_blocks d page_size bounce f m buf addr size ns >>= λ r. some (size - r.0, r.1)

-- a read of `size` bytes, more than none, that are within the file
abbrev pub read_some :
    (root_dev : Device) (page_size bounce fuel : ℕ)
    → Memory
    → (buf addr size : ℕ) → File
    → Option (ℕ × Memory)
read_some d page_size bounce f m buf addr size e =
    if is_hooked e
    then some (elim e.read_hook [ none ↦ (0, m) | some hook ↦ hook m buf addr size e.contents ])
    else if is_present e || is_virtual e
    then some (read_memory m buf addr size e)
    else read_disk d page_size bounce f m buf addr size e

-- the rest of `fs_read`, once the size is known
pub read_sized :
    (root_dev : Device) (page_size bounce fuel : ℕ)
    → Memory
    → (buf addr size : ℕ) → ℕ × File
    → Option (ℕ × Memory × File)
unfolding read_blocks
read_sized d page_size bounce f m buf addr size r =
    let size' = at_most (sub64 r.0 addr) size in
    if size' == 0
    then some (0, m, r.1)
    else (read_some d page_size bounce f m buf addr size' r.1 >>= λ t. some (t.0, t.1, r.1))

-- `bounce` is the block of memory that `dev_read` gets from `kalloc`.
pub fs_read :
    (root_dev : Device) (page_size bounce fuel : ℕ)
    → Memory
    → (buf addr size : ℕ) → File
    → Option (ℕ × Memory × File)
fs_read d page_size bounce f m buf addr size e =
    if not (e.type == ent_file)
    then some (0, m, e)
    else if leb e.size addr
    then some (0, m, e)
    else (fs_size e >>= λ r. read_sized d page_size bounce f m buf addr size r)

-- The number of bytes, as it is returned, is that of the argument if the file begins before `addr`.
pub fs_write : Memory → (buf addr size : ℕ) → File → Option (ℕ × Memory)
fs_write m buf addr size e =
    let size' = if ltb e.size (add64 addr size) then e.size - addr else size in
    if not (e.type == ent_file)
    then some (0, m)
    else if is_hooked e
    then some (elim e.write_hook [ none ↦ (0, m) | some hook ↦ hook m buf addr size e.contents ])
    else if is_virtual e
    then some
        (if ltb addr e.size then (size', memcpy m (e.contents + addr) buf size') else (size, m))
    else none
