-- ===== src/Idt.antt =====
-- The interrupt descriptor table and the entry of hardware interrupts, src/arch/i386/interrupts/idt.c. The
-- addresses of the assembly stubs are arguments.
pub mod Table
pub mod Served
pub mod Irq
mod Tests
use Prim.Native.String.{String}
use wig_osx.Base.{
  ℕ, ◌+◌, ◌-◌, ◌*◌, ◌/◌, ◌%◌, Bool, true, false, ◌||◌, Option, none, some, List, [], ◌∷◌, ◌++◌, ltb,
  leb, ◌==◌, not, if◌then◌else◌, bit_and, update,
}
use wig_osx.Base.Loops.{for_range}
use wig_osx.Interrupts.{Interrupts, context_enter, context_exit, dispatch_irq}
use wig_osx.Pic.{Write, send_eoi}

-- `struct idt_entry`.
pub record IdtEntry : Type 0 where
  pub base_low : ℕ
  pub selector : ℕ
  pub reserved : ℕ
  pub flags : ℕ
  pub base_high : ℕ

abbrev pub idt_entry_count : ℕ
idt_entry_count = 256

-- `struct idt_pointer`.
pub record IdtPointer : Type 0 where
  pub limit : ℕ
  pub base : ℕ

-- What `idt_initialize` loads for a table at an address. An entry takes 8 bytes.
unfoldable pub table_pointer : ℕ → IdtPointer
table_pointer address = record { limit = idt_entry_count * 8 - 1; base = address }

abbrev pub kernel_code_selector : ℕ
kernel_code_selector = 0x08

abbrev pub interrupt_gate_ring0 : ℕ
interrupt_gate_ring0 = 0x8E

unfoldable pub set_gate : (ℕ → IdtEntry) → ℕ → ℕ → ℕ → ℕ → ℕ → IdtEntry
set_gate entries index handler_address selector flags = update entries index (record {
  base_low = bit_and handler_address 0xFFFF;
  selector = selector;
  reserved = 0;
  flags = flags;
  base_high = bit_and (handler_address / 65536) 0xFFFF;
})

-- Gates for the stubs `stub 0`, `stub 1`, ... from the vector `first` on.
set_stub_gates : ℕ → ℕ → (ℕ → ℕ) → (ℕ → IdtEntry) → ℕ → IdtEntry
set_stub_gates count first stub entries =
    for_range count 0
      (λ k e. set_gate e (first + k) (stub k) kernel_code_selector interrupt_gate_ring0) entries

-- `isr k` is the address of the stub `isrk`.
unfoldable pub install_cpu_exceptions : (ℕ → ℕ) → (ℕ → IdtEntry) → ℕ → IdtEntry
unfolding set_stub_gates
install_cpu_exceptions isr entries = set_stub_gates 32 0 isr entries

-- `irq k` is the address of the stub `irqk`.
unfoldable pub install_hardware_interrupts : (ℕ → ℕ) → (ℕ → IdtEntry) → ℕ → IdtEntry
unfolding set_stub_gates
install_hardware_interrupts irq entries = set_stub_gates 16 32 irq entries

-- The table that `idt_initialize` loads.
unfoldable pub initialize : (ℕ → ℕ) → (ℕ → ℕ) → (ℕ → IdtEntry) → ℕ → IdtEntry
initialize isr irq entries =
    install_hardware_interrupts irq
      (install_cpu_exceptions isr (for_range idt_entry_count 0 (λ i e. set_gate e i 0 0 0) entries))

-- How the entry of an interrupt ends: it returns, or the kernel panics with a message.
pub data Ended (S : Type 0) : Type 0 where
  returned : S → Ended S
  panicked : String → S → Ended S

-- What an interrupt changes: the dispatcher, the writes to ports, and the rest of the kernel, on which handlers
-- act.
pub record Machine (H K : Type 0) : Type 0 where
  pub interrupts : Interrupts H
  pub writes : List Write
  pub kernel : K

module _ {H K : Type 0} (call : H → K → K) where
  unfoldable pub call_handler : Option H → K → K
  call_handler none k = k
  call_handler (some h) k = call h k

  -- `interrupts_dispatch_irq` with the call of the handler that it found.
  unfoldable pub dispatch : Machine H K → ℕ → Machine H K
  unfolding call_handler
  dispatch m irq =
      let (handler, interrupts) = dispatch_irq m.interrupts irq in
      record m { interrupts = interrupts; kernel = call_handler handler m.kernel }

  leave : Bool × Interrupts H → Machine H K → Ended (Machine H K)
  leave (true, interrupts) m = returned (record m { interrupts = interrupts })
  leave (false, interrupts) m = panicked "Hardware interrupt-context depth underflow" m

  -- From `interrupts_context_enter` to `interrupts_context_exit`.
  serve : Bool × Interrupts H → Machine H K → ℕ → Ended (Machine H K)
  unfolding leave
  serve (true, interrupts) m irq =
      let done = dispatch (record m { interrupts = interrupts }) irq in
      let acknowledged = record done { writes = done.writes ++ send_eoi irq } in
      leave (context_exit acknowledged.interrupts) acknowledged
  serve (false, interrupts) m irq = panicked "Hardware interrupt-context depth overflow" m

  -- `irq_handler`: `none` is a `NULL` frame, otherwise the number of the vector is given.
  unfoldable pub irq_handler : Machine H K → Option ℕ → Ended (Machine H K)
  unfolding serve
  irq_handler m none = panicked "Hardware interrupt arrived without an interrupt frame" m
  irq_handler m (some interrupt_number) =
      if ltb interrupt_number 32 || ltb 47 interrupt_number
      then panicked "Invalid hardware interrupt vector" m
      else serve (context_enter m.interrupts) m ((interrupt_number - 32) % 256)
