-- ===== src/Kernel/Interrupt/Handler.antt =====
-- What the processor finds in the table.
use frosk_current.Prelude.{ℕ, ◌+◌, ◌*◌, ◌^◌, ◌<◌, ◌≡◌, ◌==◌, if◌then◌else◌, not, arith}
use frosk_current.Kernel.Interrupt.{IdtEntry, Idt, kern_cs, reg_int, is_interrupt_set}

-- the address that the processor puts together from a descriptor
abbrev pub handler : IdtEntry → ℕ
handler e = e.lowaddr + e.midaddr * 2 ^ 16 + e.highaddr * 2 ^ 32

-- After `reg_int` the processor finds, for interrupt `i`, the 64-bit address that was given, in an
-- interrupt gate of the kernel's code segment, and for every other interrupt what it found before.
-- The interrupt counts as set unless the address is null.
pub reg_int-handler :
    (idt : Idt) (i addr j : ℕ)
    → addr < 2 ^ 64
    → (handler (reg_int idt i addr j) ≡ (if j == i then addr else handler (idt j)))
      × ((reg_int idt i addr j).selector ≡ (if j == i then kern_cs else (idt j).selector))
      × ((reg_int idt i addr j).flags ≡ (if j == i then 0x8E else (idt j).flags))
      × (is_interrupt_set (reg_int idt i addr) j
          ≡ (if j == i then not (addr == 0) else is_interrupt_set idt j))
unfolding reg_int is_interrupt_set
reg_int-handler idt i addr j h = ground arith
