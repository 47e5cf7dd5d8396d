-- ===== src/Kernel/Device/Transfer.antt =====
-- `dev_read` delivers the device's bytes.
use native.Mathlib.Nat.{
  div-add-mod', mod-lt, div-mul-le_self, lt-div-mul-add, div-le_self, mul-mod_left,
  add-mul-mod_self_right,
}
use native.Mathlib.Decide.{dec_lt}
use frosk_current.Prelude.{
  ap, ℕ, ◌+◌, ◌-◌, ◌*◌, ◌/◌, ◌%◌, ◌^◌, ◌<◌, ◌≤◌, ◌≡◌, ◌⊎◌, ◌∙◌, inl, inr, refl, false, true, some,
  arith, ◌==◌, ltb, Bool-cases, if◌then◌else◌,
}
use frosk_current.Prelude.Words.{add64}
use frosk_current.Prelude.Memory.{Memory}
use frosk_current.Cstd.Str.{memcpy}
use frosk_current.Cstd.Str.Copy.{Apart, memcpy_lem}
use frosk_current.Kernel.Device.{
  ReadBlocks, dev_read_tail, dev_read_middle, dev_read_head, dev_read,
}

-- What a driver promises about a device that holds the bytes `disk`: it reports at most as many
-- blocks as it was asked for, it writes to no other memory, and if it reports them all, they have
-- arrived. If it reports fewer, the buffer may hold anything.
pub record IsHonest (disk : ℕ → ℕ) (block_size : ℕ) (read : ReadBlocks) : Type 0 where
  pub bound : (m : Memory) (to block n : ℕ) → (read m to block n).0 ≤ n
  pub fills :
      (m : Memory) (to block n q : ℕ)
      → (read m to block n).0 ≡ n
      → to ≤ q
      → q < to + n * block_size
      → (read m to block n).1 q ≡ disk (block * block_size + (q - to))
  pub spares :
      (m : Memory) (to block n q : ℕ)
      → (q < to) ⊎ (to + n * block_size ≤ q)
      → (read m to block n).1 q ≡ m q

module _ (disk : ℕ → ℕ) (m0 : Memory) (buf0 addr0 osize bounce block_size : ℕ) where
  -- In memory `m` the first `n` of the bytes asked for have arrived, and only the buffers differ
  -- from the memory before.
  pub record Delivered (m : Memory) (n : ℕ) : Type 0 where
    pub few : n ≤ osize
    pub got : (i : ℕ) → i < n → m (buf0 + i) ≡ disk (addr0 + i)
    pub same :
        (q : ℕ)
        → (q < buf0) ⊎ (buf0 + osize ≤ q)
        → (q < bounce) ⊎ (bounce + block_size ≤ q)
        → m q ≡ m0 q

module _ (disk : ℕ → ℕ) (m0 : Memory) (buf0 addr0 osize bounce block_size : ℕ) (read : ReadBlocks)
    (honest : IsHonest disk block_size read) (some_bytes : 0 < block_size)
    (in_range : addr0 + osize < 2 ^ 64)
    (apart : (buf0 + osize ≤ bounce) ⊎ (bounce + block_size ≤ buf0)) where
  abbrev D : Memory → ℕ → Type 0
  D m n = Delivered disk m0 buf0 addr0 osize bounce block_size m n

  not_in_bounce : (i : ℕ) → i < osize → (buf0 + i < bounce) ⊎ (bounce + 1 * block_size ≤ buf0 + i)
  not_in_bounce i lt = elim apart [ inl h ↦ inl (omega arith) | inr h ↦ inr (omega arith) ]

  -- a block read into the bounce buffer, whether or not it arrives
  read_bounce : (m : Memory) (n block : ℕ) → D m n → D (read m bounce block 1).1 n
  read_bounce m n block d = record {
    few = d.few;
    got = λ i lt.
        honest.spares m bounce block 1 (buf0 + i) (not_in_bounce i (omega (arith, d.few)))
        ∙ d.got i lt;
    same = λ q out out'.
        honest.spares m bounce block 1 q (elim out' [ inl h ↦ inl h | inr h ↦ inr (omega arith) ])
        ∙ d.same q out out';
  }

  copy-Apart : (n t s : ℕ) → n + s ≤ osize → t + s ≤ block_size → Apart s (buf0 + n) (bounce + t)
  copy-Apart n t s fit inside = elim apart [ inl h ↦ inl (omega arith) | inr h ↦ inr (omega arith) ]

  -- `s` bytes copied from offset `t` of the bounce buffer
  copy :
      (m : Memory) (n t s : ℕ)
      → D m n
      → n + s ≤ osize
      → t + s ≤ block_size
      → ((j : ℕ) → j < s → m (bounce + t + j) ≡ disk (addr0 + n + j))
      → D (memcpy m (buf0 + n) (bounce + t) s) (n + s)
  copy m n t s d fit inside there = record {
    few = fit;
    got = λ i lt. ground (
      arith,
      memcpy_lem m (buf0 + n) (bounce + t) s (buf0 + i) (copy-Apart n t s fit inside),
      d.got i,
      there (i - n),
    );
    same = λ q out out'. ground (
      arith,
      memcpy_lem m (buf0 + n) (bounce + t) s q (copy-Apart n t s fit inside),
      d.same q out out',
    );
  }

  -- a read of `s` whole blocks straight into the buffer, whether or not they arrive
  read_direct :
      (m : Memory) (n s block : ℕ)
      → D m n
      → n + s * block_size ≤ osize
      → D (read m (buf0 + n) block s).1 n
  read_direct m n s block d fit = record {
    few = d.few;
    got = λ i lt. honest.spares m (buf0 + n) block s (buf0 + i) (inl (omega arith)) ∙ d.got i lt;
    same = λ q out out'.
        honest.spares m (buf0 + n) block s q
          (elim out [ inl h ↦ inl (omega arith) | inr h ↦ inr (omega arith) ])
        ∙ d.same q out out';
  }

  -- the same if all of them arrive
  arrived :
      (m : Memory) (n s block : ℕ)
      → D m n
      → n + s * block_size ≤ osize
      → block * block_size ≡ addr0 + n
      → (read m (buf0 + n) block s).0 ≡ s
      → D (read m (buf0 + n) block s).1 (n + s * block_size)
  arrived m n s block d fit aligned all = record {
    few = fit;
    got = λ i lt. elim (dec_lt i n) [
      | yes h ↦ (read_direct m n s block d fit).got i h
      | no h ↦
          honest.fills m (buf0 + n) block s (buf0 + i) all (omega arith) (omega arith)
          ∙ ap disk (omega arith)
    ];
    same = (read_direct m n s block d fit).same;
  }

  -- one block read into the bounce buffer, and `s` bytes of it copied from `from`
  through_bounce :
      (m : Memory) (n t s block buf from total : ℕ)
      → D m n
      → n + s ≤ osize
      → t + s ≤ block_size
      → block * block_size + t ≡ addr0 + n
      → buf ≡ buf0 + n
      → from ≡ bounce + t
      → total ≡ n + s
      → ((read m bounce block 1).0 == 0) ≡ false
      → D (memcpy (read m bounce block 1).1 buf from s) total
  through_bounce m n t s block buf from total d fit inside place eb ef et ok =
      rw (eb, ef, et)
        (copy (read m bounce block 1).1 n t s (read_bounce m n block d) fit inside λ j lt.
          honest.fills m bounce block 1 (bounce + t + j) one (omega arith) (omega arith)
          ∙ ap disk (omega arith))
    where
      one : (read m bounce block 1).0 ≡ 1
      one = ground (arith, honest.bound m bounce block 1)

  -- Where a phase stands: in memory `m`, `n` bytes have arrived.
  record Here (m : Memory) (n buf addr size : ℕ) : Type 0 where
    so_far : D m n
    at_buf : buf ≡ buf0 + n
    at_addr : addr ≡ addr0 + n
    left : n + size ≡ osize

  abbrev Returns : ℕ × Memory → Type 0
  Returns r = D r.1 r.0

  stop : (m : Memory) (n size : ℕ) → D m n → n + size ≡ osize → D m (osize - size)
  stop m n size d left = let e : osize - size ≡ n = omega arith in rw e d

  aligned_block : (addr : ℕ) → addr % block_size ≡ 0 → addr / block_size * block_size ≡ addr
  aligned_block addr h = omega (arith, div-add-mod' addr block_size)

  -- a phase that has bytes left to read begins at a block
  begins : (addr size : ℕ) → addr % block_size ≡ 0 ⊎ size ≡ 0 → 0 < size → addr % block_size ≡ 0
  begins addr size (inl h) more = h
  begins addr size (inr h) more = absurd (omega arith)

  tail :
      (m : Memory) (n buf addr size : ℕ)
      → Here m n buf addr size
      → addr % block_size ≡ 0 ⊎ size ≡ 0
      → size < block_size
      → Returns (dev_read_tail read block_size bounce osize m buf addr size)
  unfolding dev_read_tail
  tail m n buf addr size h aligned small = elim (Bool-cases (size == 0)) [
    | inl done ↦ rw done (stop m n size h.so_far h.left)
    | inr more ↦
        let at_block = aligned_block addr (begins addr size aligned (ground arith)) in
        rw more (elim (Bool-cases ((read m bounce (addr / block_size) 1).0 == 0)) [
          | inl failed ↦
              rw failed (stop _ n size (read_bounce m n (addr / block_size) h.so_far) h.left)
          | inr ok ↦ rw ok (
              through_bounce m n 0 size (addr / block_size) buf bounce osize h.so_far (omega arith)
                (omega arith) (omega (arith, h.at_addr)) h.at_buf (omega arith) (omega arith) ok)
        ])
  ]

  middle :
      (m : Memory) (n buf addr size : ℕ)
      → Here m n buf addr size
      → addr % block_size ≡ 0 ⊎ size ≡ 0
      → Returns (dev_read_middle read block_size bounce osize m buf addr size)
  unfolding dev_read_middle
  middle m n buf addr size h aligned = elim (Bool-cases (s == 0)) [
    | inl skip ↦
        rw skip
          (tail m n buf addr size h aligned (ground (arith, lt-div-mul-add {a = size} some_bytes)))
    | inr some_blocks ↦
        let more : 0 < size = ground (arith, div-le_self size block_size) in
        let at_block = aligned_block addr (begins addr size aligned more) in
        rw some_blocks (elim (Bool-cases (got == s)) [
          | inl all ↦ rw all (
              tail after (n + s * block_size) (buf + s * block_size) (add64 addr (s * block_size))
                (size - s * block_size)
                (record {
                  so_far = rw h.at_buf (
                      arrived m n s _ h.so_far (omega (arith, whole, h.left))
                        (omega (arith, h.at_addr)) (rw (← h.at_buf) (ground arith)));
                  at_buf = omega (arith, h.at_buf);
                  at_addr = omega (arith, h.at_addr);
                  left = omega (arith, h.left);
                })
                (inl (
                  rw sum
                    (add-mul-mod_self_right addr s block_size ∙ begins addr size aligned more)))
                (omega (arith, lt-div-mul-add {a = size} some_bytes)))
          | inr short ↦ rw short (
              stop after n size
                (rw h.at_buf (read_direct m n s _ h.so_far (omega (arith, whole, h.left)))) h.left)
        ])
  ]
    where
      s : ℕ
      s = size / block_size

      got : ℕ
      got = (read m buf (addr / block_size) s).0

      after : Memory
      after = (read m buf (addr / block_size) s).1

      whole : s * block_size ≤ size
      whole = div-mul-le_self size block_size

      sum : add64 addr (s * block_size) ≡ addr + s * block_size
      sum = omega (arith, whole, h.at_addr, h.left)

  head :
      (m : Memory) (n buf addr size : ℕ)
      → Here m n buf addr size
      → Returns (dev_read_head read block_size bounce osize m buf addr size)
  unfolding dev_read_head
  head m n buf addr size h = elim (Bool-cases (t == 0)) [
    | inl whole ↦ rw whole (middle m n buf addr size h (inl (ground arith)))
    | inr part ↦ rw part (elim (Bool-cases ((read m bounce (addr / block_size) 1).0 == 0)) [
      | inl failed ↦ rw failed (stop _ n size (read_bounce m n (addr / block_size) h.so_far) h.left)
      | inr ok ↦ rw ok (
          middle _ (n + s) (buf + s) (add64 addr s) (size - s)
            (record {
              so_far =
                  through_bounce m n t s (addr / block_size) buf (bounce + t) (n + s) h.so_far
                    (omega (arith, fits, h.left)) (omega (arith, inside))
                    (omega (arith, h.at_addr, div-add-mod' addr block_size)) h.at_buf refl refl ok;
              at_buf = omega (arith, h.at_buf);
              at_addr = omega (arith, h.at_addr, h.left, fits);
              left = omega (arith, h.left, fits);
            })
            (next (Bool-cases (ltb (block_size - t) size))))
    ])
  ]
    where
      t : ℕ
      t = addr % block_size

      s : ℕ
      s = if ltb (block_size - t) size then block_size - t else size

      fits : s ≤ size
      fits = ground arith

      inside : t + s ≤ block_size
      inside = ground (arith, mod-lt addr some_bytes)

      to_edge :
          block_size - t < size → add64 addr (block_size - t) ≡ (addr / block_size + 1) * block_size
      to_edge more =
          omega (arith, h.at_addr, h.left, div-add-mod' addr block_size, mod-lt addr some_bytes)

      next :
          (ltb (block_size - t) size ≡ true) ⊎ (ltb (block_size - t) size ≡ false)
          → add64 addr s % block_size ≡ 0 ⊎ size - s ≡ 0
      next (inl more) =
          rw more
            (inl (rw (to_edge (ground arith)) (mul-mod_left (addr / block_size + 1) block_size)))
      next (inr last) = rw last (inr (omega arith))

-- From a device that keeps its promise, `dev_read` delivers what it reports: the first `r` bytes of
-- the buffer are the device's bytes from `addr` on, where `r`, the number returned, is at most
-- `size`. Other memory than the buffer and the bounce block is unchanged. This holds also if the
-- device fails on the way.
pub dev_read_lem :
    (disk : ℕ → ℕ) (m : Memory) (buf addr size bounce block_size : ℕ) (read : ReadBlocks)
    → IsHonest disk block_size read
    → 0 < block_size
    → addr + size < 2 ^ 64
    → (buf + size ≤ bounce) ⊎ (bounce + block_size ≤ buf)
    → let (r, m') =
        dev_read (record { read = some read; block_size = block_size }) m buf addr size bounce in
      Delivered disk m buf addr size bounce block_size m' r
unfolding dev_read
dev_read_lem disk m buf addr size bounce block_size read honest pos range apart =
    elim (Bool-cases (size == 0)) [
      | inl nothing ↦ rw nothing start
      | inr bytes ↦ rw bytes (
          head disk m buf addr size bounce block_size read honest pos range apart m 0 buf addr size
            (record {
              so_far = start;
              at_buf = omega arith;
              at_addr = omega arith;
              left = omega arith;
            }))
    ]
  where
    start : Delivered disk m buf addr size bounce block_size m 0
    start = record {
      few = omega arith;
      got = λ i lt. absurd (omega arith);
      same = λ q out out'. refl;
    }
