-- ===== src/System.antt =====
-- The kernel as a whole: the static variables of all its files, the handlers that interrupts call, and
-- `kernel_panic` of src/kernel/panic.c.
use Prim.Native.String.{String}
use wig_osx.Base.{ℕ, Bool, true, false, Option, none, some, List, [], ◌∷◌}
use wig_osx.Base.Text.{text}
use wig_osx.Console.{Console}
use wig_osx.Gdt.{GdtEntry}
use wig_osx.Heap.{Heap}
use wig_osx.Idt.{Machine, IdtEntry}
use wig_osx.Input.{Input}
use wig_osx.Input.Typing
use wig_osx.Keyboard.{Keyboard}
use wig_osx.Log
use wig_osx.Log.{Log, Call, put, say}
use wig_osx.Memory.{Memory}
use wig_osx.Pit
use wig_osx.Pmm.{Pmm}
use wig_osx.Serial
use wig_osx.Shell.Buffer.{Shell}
use wig_osx.Vmm.{Vmm}

-- The functions that the kernel registers for interrupt lines.
pub data Handler : Type 0 where
  pit_handler : Handler
  keyboard_handler : Handler

-- What the instructions of include/kernel/arch/i386/cpu.h set: whether interrupts are delivered, and whether the
-- processor waits for one.
pub record Cpu : Type 0 where
  pub interrupts_enabled : Bool
  pub waiting : Bool

-- All that is not the dispatcher's.
pub record Parts : Type 0 where
  pub cpu : Cpu
  pub log : Log
  pub ticks : ℕ
  pub keyboard : Keyboard
  pub input : Input
  pub memory : Memory
  pub pmm : Pmm
  pub vmm : Vmm
  pub heap : Heap
  pub gdt : ℕ → GdtEntry
  pub idt : ℕ → IdtEntry
  pub shell : Shell

abbrev pub System : Type 0
System = Machine Handler Parts

-- The kernel runs on, or `kernel_panic` has stopped it for good.
pub data Outcome : Type 0 where
  running : System → Outcome
  halted : System → Outcome

abbrev pub with_parts : System → Parts → System
with_parts s p = record s { kernel = p }

-- `cpu_disable_interrupts`, `cpu_enable_interrupts` and `cpu_enable_interrupts_and_halt`.
abbrev pub disable_interrupts : Parts → Parts
disable_interrupts p = record p { cpu = record p.cpu { interrupts_enabled = false } }

abbrev pub enable_interrupts : Parts → Parts
enable_interrupts p = record p { cpu = record p.cpu { interrupts_enabled = true } }

abbrev pub enable_interrupts_and_halt : Parts → Parts
enable_interrupts_and_halt p = record p {
  cpu = record { interrupts_enabled = true; waiting = true };
}

-- The console of the log.
abbrev pub on_console : (Console → Console) → Parts → Parts
on_console f p = record p { log = record p.log { console = f p.log.console } }

module _ (line_status : ℕ → ℕ) where
  -- Calls of the log.
  abbrev pub emit : List Call → Parts → Parts
  emit calls p = record p { log = Log.perform line_status p.log calls }

  panic_message : Option (List ℕ) → List ℕ
  panic_message none = text "Unspecified fatal error"
  panic_message (some message) = message

  -- `kernel_panic`, up to its last loop; `none` is `NULL`.
  unfoldable pub kernel_panic : Option (List ℕ) → System → Outcome
  unfolding panic_message
  kernel_panic message s = halted (
      with_parts s (
        emit
          (say (text "\n[KERNEL PANIC] ")
            ∷ say (panic_message message)
            ∷ put 10
            ∷ say (text "System halted.\n")
            ∷ [])
          (disable_interrupts s.kernel)))

  -- Each text is one call of `serial_writestring`.
  unfoldable pub write_serial : List String → Parts → Parts
  write_serial [] p = p
  write_serial (m ∷ ms) p =
      write_serial ms (record p {
        log = record p.log { serial = Serial.write line_status p.log.serial (text m) };
      })

  -- The handlers: `pit_handle_interrupt`, and `input_handle_keyboard_interrupt` on the byte that the
  -- keyboard's data port gives.
  unfoldable pub call_handler : ℕ → Handler → Parts → Parts
  call_handler raw_scancode pit_handler p =
      let (ticks, messages) = Pit.handle_interrupt p.ticks in
      write_serial messages (record p { ticks = ticks })
  call_handler raw_scancode keyboard_handler p =
      let (keyboard, input) = Typing.handle_keyboard_interrupt raw_scancode p.keyboard p.input in
      record p { keyboard = keyboard; input = input }
