-- ===== src/Kernel/Files/Blocks.antt =====
-- What the loop over the blocks of a file delivers.
use frosk_current.Prelude.{
  ℕ, zero, suc, ◌+◌, ◌-◌, ◌*◌, ◌^◌, ◌≤◌, ◌<◌, ◌≡◌, ◌⊎◌, inl, inr, refl, true, false, some, List, [],
  ◌∷◌, ◌==◌, ltb, leb, if◌then◌else◌, arith, Bool-cases, ap, ◌∙◌, length,
}
use frosk_current.Prelude.Words.{add64, mul64}
use frosk_current.Prelude.Memory.{Memory}
use frosk_current.Kernel.Device.{Device, ReadBlocks, dev_read}
use frosk_current.Kernel.Device.Transfer.{IsHonest, dev_read_lem}
use frosk_current.Kernel.Device.Complete.{dev_read-size}
use frosk_current.Kernel.Files.{DataBlock, read_blocks}

-- the bytes in all blocks
abbrev pub total : List DataBlock → ℕ
total [] = 0
total (n ∷ ns) = n.size + total ns

-- Every block has bytes, and ends within the addresses of the device.
abbrev pub AllUsable : ℕ → List DataBlock → Type 0
AllUsable page_size [] = Unit
AllUsable page_size (n ∷ ns) =
    (0 < n.size) × (n.lba * page_size + n.size < 2 ^ 64) × AllUsable page_size ns

module _ (disk : ℕ → ℕ) (page_size : ℕ) where
  -- byte `j` of a file
  pub file_byte : List DataBlock → ℕ → ℕ
  file_byte [] j = 0
  file_byte (n ∷ ns) j =
      if ltb j n.size then disk (n.lba * page_size + j) else file_byte ns (j - n.size)

module _ (disk : ℕ → ℕ) (page_size bounce block_size : ℕ) (read : ReadBlocks)
    (honest : IsHonest disk block_size read)
    (all : (m : Memory) (to block n : ℕ) → (read m to block n).0 ≡ n)
    (some_bytes : 0 < block_size) where
  abbrev d : Device
  d = record { read = some read; block_size = block_size }

  -- The buffer has the first `rem` bytes of the blocks, and only the buffers are changed.
  pub record IsRead (m : Memory) (buf rem : ℕ) (ns : List DataBlock) (m' : Memory) : Type 0 where
    pub got : (j : ℕ) → j < rem → m' (buf + j) ≡ file_byte disk page_size ns j
    pub same :
        (q : ℕ)
        → (q < buf) ⊎ (buf + rem ≤ q)
        → (q < bounce) ⊎ (bounce + block_size ≤ q)
        → m' q ≡ m q

  -- the bytes that a round reads
  abbrev part : (rem : ℕ) → DataBlock → ℕ
  part rem n = if ltb rem n.size then rem else n.size

  abbrev after : (m : Memory) (buf rem : ℕ) → DataBlock → Memory
  after m buf rem n = (dev_read d m buf (n.lba * page_size) (part rem n) bounce).1

  same_eq : (a b : ℕ) → a ≡ b → (a == b) ≡ true
  same_eq a b e = ground arith

  start_of :
      (lba size : ℕ)
      → lba * page_size + size < 2 ^ 64
      → add64 (mul64 lba page_size) 0 ≡ lba * page_size
  start_of lba size range = omega arith

  read_blocks-round :
      (f : ℕ) (m : Memory) (buf rem : ℕ) (n : DataBlock) (ns : List DataBlock)
      → 0 < n.size
      → 0 < rem
      → n.lba * page_size + n.size < 2 ^ 64
      → read_blocks d page_size bounce (suc f) m buf 0 rem (n ∷ ns)
        ≡ read_blocks d page_size bounce f
            (after m buf rem n)
            (buf + part rem n)
            0
            (rem - part rem n)
            ns
  unfolding read_blocks
  read_blocks-round f m buf rem n ns full positive range =
      let some_left : (rem == 0) ≡ false = ground arith in
      let inside : leb n.size 0 ≡ false = ground arith in
      let start = start_of n.lba n.size range in
      let arrived =
        same_eq _ (part rem n)
          (dev_read-size m buf (n.lba * page_size) (part rem n) bounce block_size read all) in
      rw (some_left, inside, start, arrived) refl

  part_bounds : (rem : ℕ) (n : DataBlock) → (part rem n ≤ rem) × (part rem n ≤ n.size)
  part_bounds rem n = (ground arith, ground arith)

  part_late :
      (rem : ℕ) (n : DataBlock) (j : ℕ)
      → j < rem
      → ltb j (part rem n) ≡ false
      → (part rem n ≡ n.size) × (part rem n ≤ j)
  part_late rem n j lt late = (ground arith, ground arith)

  ltb-lt : (a b : ℕ) → ltb a b ≡ true → a < b
  ltb-lt a b h = ground arith

  address : (buf j s : ℕ) → s ≤ j → buf + j ≡ buf + s + (j - s)
  address buf j s h = omega arith

  not_bounce :
      (buf rem j : ℕ)
      → (buf + rem ≤ bounce) ⊎ (bounce + block_size ≤ buf)
      → j < rem
      → (buf + j < bounce) ⊎ (bounce + block_size ≤ buf + j)
  not_bounce buf rem j apart lt = elim apart [
    | inl h ↦ inl (omega arith)
    | inr h ↦ inr (omega arith)
  ]

  file_byte_here :
      (n : DataBlock) (ns : List DataBlock) (j : ℕ)
      → j < n.size
      → disk (n.lba * page_size + j) ≡ file_byte disk page_size (n ∷ ns) j
  unfolding file_byte
  file_byte_here n ns j h = ground arith

  file_byte_later :
      (n : DataBlock) (ns : List DataBlock) (j : ℕ)
      → n.size ≤ j
      → file_byte disk page_size ns (j - n.size) ≡ file_byte disk page_size (n ∷ ns) j
  unfolding file_byte
  file_byte_later n ns j h = ground arith

  IsRead-round :
      (m : Memory) (buf rem : ℕ) (n : DataBlock) (ns : List DataBlock) (m' : Memory)
      → n.lba * page_size + n.size < 2 ^ 64
      → (buf + rem ≤ bounce) ⊎ (bounce + block_size ≤ buf)
      → IsRead (after m buf rem n) (buf + part rem n) (rem - part rem n) ns m'
      → IsRead m buf rem (n ∷ ns) m'
  IsRead-round m buf rem n ns m' range apart rest =
      let bounds : (part rem n ≤ rem) × (part rem n ≤ n.size) = part_bounds rem n in
      let moved : (buf + part rem n ≤ bounce) ⊎ (bounce + block_size ≤ buf) = elim apart [
        | inl h ↦ inl (omega arith)
        | inr h ↦ inr h
      ] in
      let first =
        dev_read_lem disk m buf (n.lba * page_size) (part rem n) bounce block_size read honest
          some_bytes (omega arith) moved in
      let whole = dev_read-size m buf (n.lba * page_size) (part rem n) bounce block_size read all in
      record {
        got = λ j lt. elim (Bool-cases (ltb j (part rem n))) [
          | inl early ↦
              let lt' : j < part rem n = ltb-lt j (part rem n) early in
              rest.same (buf + j) (inl (omega arith)) (not_bounce buf rem j apart lt)
              ∙ first.got j (omega (arith, whole))
              ∙ file_byte_here n ns j (omega arith)
          | inr late ↦
              let (full, ge) = part_late rem n j lt late in
              ap m' (address buf j (part rem n) ge)
              ∙ rest.got (j - part rem n) (omega arith)
              ∙ ap (λ k. file_byte disk page_size ns (j - k)) full
              ∙ file_byte_later n ns j (omega (arith, full))
        ];
        same = λ q out out'.
            rest.same q (elim out [ inl h ↦ inl (omega arith) | inr h ↦ inr (omega arith) ]) out'
            ∙ first.same q (elim out [ inl h ↦ inl h | inr h ↦ inr (omega arith) ]) out';
      }

  read_blocks-nothing :
      (f : ℕ) (m : Memory) (buf rem : ℕ) (ns : List DataBlock)
      → rem ≡ 0
      → read_blocks d page_size bounce (suc f) m buf 0 rem ns ≡ some (0, m)
  unfolding read_blocks
  read_blocks-nothing f m buf rem [] none_left = rw none_left refl
  read_blocks-nothing f m buf rem (n ∷ ns) none_left =
      let test : (rem == 0) ≡ true = ground arith in rw test (rw none_left refl)

  pub read_blocks-IsRead :
      (f : ℕ) (m : Memory) (buf rem : ℕ) (ns : List DataBlock)
      → AllUsable page_size ns
      → rem ≤ total ns
      → length ns < f
      → (buf + rem ≤ bounce) ⊎ (bounce + block_size ≤ buf)
      → (m' : Memory) × (read_blocks d page_size bounce f m buf 0 rem ns ≡ some (0, m'))
        × IsRead m buf rem ns m'
  read_blocks-IsRead zero m buf rem ns usable fits fuel apart = absurd (omega arith)
  read_blocks-IsRead (suc f) m buf rem [] usable fits fuel apart = (
    m,
    read_blocks-nothing f m buf rem [] (omega arith),
    record { got = λ j lt. absurd (omega arith); same = λ q _ _. refl },
  )
  read_blocks-IsRead (suc f) m buf rem (n ∷ ns) (full, range, usable) fits fuel apart =
      elim (Bool-cases (ltb 0 rem)) [
        | inr done ↦
            let none_left : rem ≡ 0 = ground arith in
            (
              m,
              read_blocks-nothing f m buf rem (n ∷ ns) none_left,
              record { got = λ j lt. absurd (omega arith); same = λ q _ _. refl },
            )
        | inl more ↦
            let positive : 0 < rem = ground arith in
            let fits' : rem - part rem n ≤ total ns = ground arith in
            let apart' : (buf + part rem n + (rem - part rem n) ≤ bounce)
                ⊎ (bounce + block_size ≤ buf + part rem n) =
              ground arith in
            let (m', run, rest) =
              read_blocks-IsRead f (after m buf rem n) (buf + part rem n) (rem - part rem n) ns
                usable fits' (omega arith) apart' in
            (
              m',
              read_blocks-round f m buf rem n ns full positive range ∙ run,
              IsRead-round m buf rem n ns m' range apart rest,
            )
      ]
