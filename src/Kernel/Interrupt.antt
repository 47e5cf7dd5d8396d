-- ===== src/Kernel/Interrupt.antt =====
-- `kernel/src/interrupt.c`: the interrupt descriptor table of x86-64.
pub mod Handler
use frosk_current.Prelude.{ℕ, ◌/◌, ◌%◌, ◌^◌, Bool, ◌==◌, if◌then◌else◌, ◌||◌, not}

pub record IdtEntry : Type 0 where
  pub lowaddr : ℕ
  pub selector : ℕ
  pub ist : ℕ
  pub flags : ℕ
  pub midaddr : ℕ
  pub highaddr : ℕ
  pub zero_word : ℕ

-- `static idt_entry_t idt[0x100]`
abbrev pub Idt : Type 0
Idt = ℕ → IdtEntry

abbrev pub kern_cs : ℕ
kern_cs = 0x08

-- `addr` is the handler's address.
pub xreg_int : Idt → (i addr fl ist : ℕ) → Idt
xreg_int idt i addr fl ist j =
    if j == i
    then record {
      lowaddr = addr % 2 ^ 16;
      selector = kern_cs;
      ist = ist;
      flags = fl;
      midaddr = addr / 2 ^ 16 % 2 ^ 16;
      highaddr = addr / 2 ^ 32 % 2 ^ 32;
      zero_word = 0;
    }
    else idt j

pub reg_int : Idt → (i addr : ℕ) → Idt
unfolding xreg_int
reg_int idt i addr = xreg_int idt i addr 0x8E 0

pub is_interrupt_set : Idt → ℕ → Bool
is_interrupt_set idt i =
    not ((idt i).lowaddr == 0) || (not ((idt i).midaddr == 0) || not ((idt i).highaddr == 0))
