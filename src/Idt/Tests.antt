-- ===== src/Idt/Tests.antt =====
-- A concrete table, and a concrete interrupt.
use wig_osx.Base.{ℕ, ◌+◌, ◌*◌, ◌≤◌, ◌%◌, ◌<◌, ◌≡◌, none, some, [], arith, ◌==◌, if◌then◌else◌}
use wig_osx.Idt.{
  IdtEntry, initialize, table_pointer, kernel_code_selector, interrupt_gate_ring0, Machine,
  returned, panicked, irq_handler,
}
use wig_osx.Idt.Irq.{accounted, irq_handler_lem}
use wig_osx.Idt.Table.{gate, handler_address, initialize-gates}

abbrev stub : ℕ → ℕ
stub k = 0x100000 + k % 64

stub-small : (k : ℕ) → stub k < 4294967296
stub-small k = omega arith

abbrev no_gates : ℕ → IdtEntry
no_gates v = gate 1 2 3

initialize-gates_example :
    (initialize stub stub no_gates 33 ≡ gate 0x100001 kernel_code_selector interrupt_gate_ring0)
    × (handler_address (initialize stub stub no_gates 33) ≡ 0x100001)
    × (33 * 8 + 7 ≤ (table_pointer 0x5000).limit)
initialize-gates_example =
    initialize-gates stub stub no_gates 33 0x5000 (omega arith) stub-small stub-small

-- Handlers add a number to a counter; line 0 has one.
abbrev counting : ℕ → ℕ → ℕ
counting h k = h + k

abbrev machine : Machine ℕ ℕ
machine = record {
  interrupts = record {
    irq_handlers = λ i. if i == 0 then some 10 else none;
    irq_dispatch_counts = λ i. 0;
    unhandled_irq_count = 0;
    invalid_irq_count = 0;
    interrupt_context_depth = 0;
  };
  writes = [];
  kernel = 5;
}

irq_handler_lem_example :
    (irq_handler counting machine none
      ≡ panicked "Hardware interrupt arrived without an interrupt frame" machine)
    × (irq_handler counting machine (some 32) ≡ returned (accounted counting machine 0))
irq_handler_lem_example = irq_handler_lem counting machine 32 (omega arith)
