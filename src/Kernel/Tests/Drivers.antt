-- ===== src/Kernel/Tests/Drivers.antt =====
-- Devices, interrupts and page tables.
use frosk_current.Prelude.{
  ℕ, ◌+◌, ◌-◌, ◌*◌, ◌≡◌, inl, inr, refl, some, arith, ltb, leb, ◌==◌, ◌&&◌, if◌then◌else◌, not,
}
use frosk_current.Kernel.Device.{ReadBlocks, dev_read}
use frosk_current.Kernel.Device.Transfer.{IsHonest, Delivered, dev_read_lem}
use frosk_current.Kernel.Interrupt.{IdtEntry, kern_cs, reg_int, is_interrupt_set}
use frosk_current.Kernel.Interrupt.Handler.{handler, reg_int-handler}
use frosk_current.Kernel.PageTable.{get_entry, canonical}
use frosk_current.Kernel.PageTable.Indices.{get_entry-injective}

-- a device that holds the byte `3 * a` at address `a`, in blocks of 4 bytes
abbrev pub disk : ℕ → ℕ
disk a = 3 * a

abbrev pub read : ReadBlocks
read m to block n =
    (n, λ q. if leb to q && ltb q (to + n * 4) then disk (block * 4 + (q - to)) else m q)

pub read-IsHonest : IsHonest disk 4 read
read-IsHonest = record {
  bound = λ m to block n. omega arith;
  fills = λ m to block n q all lo hi. ground arith;
  spares = λ m to block n q out. ground arith;
}

-- ten bytes from an address inside a block, to an address inside another
dev_read_lem_example :
    let (r, m') = dev_read (record { read = some read; block_size = 4 }) (λ _. 0) 100 5 10 200 in
    Delivered disk (λ _. 0) 100 5 10 200 4 m' r
dev_read_lem_example =
    dev_read_lem disk (λ _. 0) 100 5 10 200 4 read read-IsHonest (omega arith) (omega arith)
      (inl (omega arith))

abbrev empty_entry : IdtEntry
empty_entry = record {
  lowaddr = 0;
  selector = 0;
  ist = 0;
  flags = 0;
  midaddr = 0;
  highaddr = 0;
  zero_word = 0;
}

reg_int-handler_example :
    (handler (reg_int (λ _. empty_entry) 33 0x123456789ABC 33) ≡ 0x123456789ABC)
    × ((reg_int (λ _. empty_entry) 33 0x123456789ABC 33).selector ≡ kern_cs)
    × ((reg_int (λ _. empty_entry) 33 0x123456789ABC 33).flags ≡ 0x8E)
    × (is_interrupt_set (reg_int (λ _. empty_entry) 33 0x123456789ABC) 33
        ≡ not (0x123456789ABC == 0))
reg_int-handler_example = reg_int-handler (λ _. empty_entry) 33 0x123456789ABC 33 (omega arith)

get_entry-injective_example : ◌≡◌ {A = ℕ} 0xFFFF800000000 0xFFFF800000000
unfolding get_entry canonical
get_entry-injective_example =
    get_entry-injective 0xFFFF800000000123 0xFFFF800000000FFF 0x2000
      (inr (omega arith, omega arith)) (inr (omega arith, omega arith)) (omega arith) refl refl refl
      refl
