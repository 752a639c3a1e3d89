-- ===== src/Kernel/Boot.antt =====
-- The start of the kernel, kernel_main in src/kernel/kernel.c up to its loop.
use Prim.Native.String.{String}
use wig_osx.Base.{
  ℕ, Bool, true, false, not, Option, none, some, List, [], ◌∷◌, ◌++◌, ◌==◌, if◌then◌else◌,
}
use wig_osx.Base.Text.{text}
use wig_osx.Console
use wig_osx.Gdt
use wig_osx.Heap
use wig_osx.Idt
use wig_osx.Input
use wig_osx.Interrupts
use wig_osx.Log
use wig_osx.Log.{Log, say, put}
use wig_osx.Memory
use wig_osx.Memory.{Memory}
use wig_osx.Multiboot.{PhysicalMemory}
use wig_osx.Pic
use wig_osx.Pit
use wig_osx.Pmm
use wig_osx.Pmm.{Layout}
use wig_osx.Shell
use wig_osx.Status.{Status, unavailable, kernel_status_is_ok}
use wig_osx.System.{
  System, Outcome, running, pit_handler, keyboard_handler, with_parts, on_console, emit,
  kernel_panic, disable_interrupts, enable_interrupts,
}
use wig_osx.Version.{version_string}
use wig_osx.Vmm

-- What the boot loader, the linker and the hardware give: memory, addresses, what the line status register gives at
-- each of its reads, and the masks read from the interrupt controllers, in order.
pub record Platform : Type 0 where
  pub memory : PhysicalMemory
  pub layout : Layout
  pub heap_start : ℕ
  pub heap_end : ℕ
  pub page_directory : ℕ
  pub page_tables : ℕ → ℕ
  pub isr : ℕ → ℕ
  pub irq : ℕ → ℕ
  pub line_status : ℕ → ℕ
  pub masks : ℕ → ℕ

-- `MULTIBOOT_BOOTLOADER_MAGIC`.
abbrev pub multiboot_magic : ℕ
multiboot_magic = 0x2BADB002

abbrev add_writes : System → List Pic.Write → System
add_writes s ws = record s { writes = s.writes ++ ws }

module _ (p : Platform) where
  -- The rest of the start runs only if the test holds; otherwise the kernel panics.
  unfoldable pub require : Bool → String → System → (System → Outcome) → Outcome
  require true message s rest = rest s
  require false message s rest = kernel_panic p.line_status (some (text message)) s

  abbrev pub announce : String → System → System
  announce message s = with_parts s (emit p.line_status (say (text message) ∷ []) s.kernel)

  -- From `shell_initialize` to `cpu_enable_interrupts`.
  unfoldable pub start_serving : System → Outcome
  start_serving s =
      let t = with_parts s (Shell.initialize s.kernel) in
      let (first, ws) = Pic.unmask_irq 0 (p.masks 2) 0 in
      require first "Failed to unmask PIT IRQ0" (add_writes t ws) (λ u.
        let (second, vs) = Pic.unmask_irq 1 (p.masks 3) 0 in
        require second "Failed to unmask keyboard IRQ1" (add_writes u vs)
          (λ v. running (with_parts v (enable_interrupts v.kernel))))

  -- The registration of the two handlers, and the timer.
  unfoldable pub start_handlers : System → Outcome
  start_handlers s =
      let (first, a) = Interrupts.register_irq s.interrupts 0 (some pit_handler) in
      require first "Failed to register PIT IRQ handler" (record s { interrupts = a })
        (λ t.
          let (second, b) = Interrupts.register_irq t.interrupts 1 (some keyboard_handler) in
          require second "Failed to register keyboard IRQ handler" (record t { interrupts = b })
            (λ u.
              let timer = Pit.initialize u.kernel.ticks 100 in
              require timer.done "PIT initialization failed"
                (add_writes (with_parts u (record u.kernel { ticks = timer.ticks })) timer.writes)
                start_serving))

  unfoldable pub start_interrupts : System → Outcome
  start_interrupts old =
      let s = announce "Initializing interrupt services...\n" old in
      start_handlers (
        add_writes
          (record s {
            interrupts = Interrupts.initialize s.interrupts;
            kernel = record s.kernel {
              input = Input.initialize s.kernel.input;
              idt = Idt.initialize p.isr p.irq s.kernel.idt;
            };
          })
          (Pic.remap (p.masks 0) (p.masks 1) ++ Pic.mask_all))

  unfoldable pub start_heap : System → Outcome
  start_heap old =
      let s = announce "Initializing kernel heap backing region...\n" old in
      let (status, heap) = Heap.initialize p.heap_start p.heap_end s.kernel.heap in
      require (kernel_status_is_ok status) "Kernel heap backing-region initialization failed"
        (with_parts s (record s.kernel { heap = heap })) start_interrupts

  unfoldable pub start_paging : System → Outcome
  start_paging old =
      let s = announce "Initializing GDT...\n" old in
      let t =
        announce "Initializing virtual memory manager...\n"
          (with_parts s (record s.kernel { gdt = Gdt.initialize s.kernel.gdt })) in
      let (status, vmm) = Vmm.initialize p.page_directory p.page_tables t.kernel.vmm in
      require (kernel_status_is_ok status) "Virtual memory manager initialization failed"
        (with_parts t (record t.kernel { vmm = vmm }))
        (λ u.
          start_heap
            (with_parts u (emit p.line_status (Vmm.Print.print_summary u.kernel.vmm) u.kernel)))

  unfoldable pub start_frames : ℕ → System → Outcome
  start_frames address old =
      let s = announce "Initializing physical memory manager...\n" old in
      let (status, pmm) = Pmm.initialize p.memory p.layout s.kernel.memory address s.kernel.pmm in
      require (kernel_status_is_ok status) "Physical memory manager initialization failed"
        (with_parts s (record s.kernel { pmm = pmm }))
        (λ t.
          start_paging
            (with_parts t (emit p.line_status (Pmm.Print.print_summary t.kernel.pmm) t.kernel)))

  -- What follows `memory_initialize`. `none` means that the walk through the memory map ran out of fuel.
  unfoldable pub with_memory : ℕ → System → Option (Status × Memory) → Option Outcome
  with_memory address s none = none
  with_memory address s (some (status, memory)) = some (
      require (kernel_status_is_ok status) "Memory-map initialization failed"
        (with_parts s (record s.kernel { memory = memory }))
        (λ t. start_frames address (
          with_parts t (emit p.line_status (Memory.Print.print_summary t.kernel.memory) t.kernel))))

  unfoldable pub start_memory : ℕ → System → Option Outcome
  start_memory address s =
      with_memory address (announce "Initializing normalized memory map...\n" s)
        (Memory.initialize p.memory address)

  -- Without the serial port a warning is shown.
  unfoldable pub warn : Status → System → System
  warn unavailable s = with_parts s (
      on_console
        (λ c.
          Console.writestring c (text "[WARNING] Serial logging unavailable; using VGA only.\n"))
        s.kernel)
  warn _ s = s

  -- The start of the log, and its first line.
  unfoldable pub start_log : System → System
  start_log s =
      let (status, log) = Log.initialize p.line_status s.kernel.log in
      let t = warn status (with_parts s (record s.kernel { log = log })) in
      with_parts t
        (emit p.line_status (say (text "wigOSX ") ∷ say version_string ∷ put 10 ∷ []) t.kernel)

  -- `kernel_main` up to its loop.
  unfoldable pub kernel_main : ℕ → ℕ → System → Option Outcome
  kernel_main magic multiboot_info_address old =
      let s = with_parts old (on_console Console.initialize (disable_interrupts old.kernel)) in
      if not (magic == multiboot_magic)
      then some (kernel_panic p.line_status (some (text "Invalid Multiboot bootloader magic")) s)
      else if multiboot_info_address == 0
      then some (kernel_panic p.line_status (some (text "Multiboot information address is zero")) s)
      else start_memory multiboot_info_address (start_log s)
