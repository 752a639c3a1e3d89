-- ===== src/Kernel.antt =====
-- The foreground loop of the kernel, src/kernel/work.c, processor exceptions, and the end of kernel_main in src/kernel/kernel.c, with the
-- interrupts that arrive between its rounds.
pub mod Model
pub mod Called
pub mod Interrupt
pub mod Round
pub mod Refine
pub mod Drain
pub mod Preempt
pub mod Good
pub mod Midway
pub mod Linear
pub mod Forward
pub mod Careful
pub mod Lasting
pub mod Boot
pub mod Start
pub mod Life
pub mod Frames
mod Tests
use wig_osx.Base.{ℕ, Bool, true, false, not, Option, none, some, List, [], ◌∷◌, if◌then◌else◌}
use wig_osx.Base.Text.{text}
use wig_osx.Idt.{Ended, returned, panicked, irq_handler}
use wig_osx.Input.{Input, try_read_character}
use wig_osx.Interrupts.{is_in_context}
use wig_osx.Log.{say, put, decimal32, hex32}
use wig_osx.Shell.{handle_character}
use wig_osx.System.{
  System, Parts, Outcome, running, halted, with_parts, kernel_panic, call_handler, emit,
  disable_interrupts, enable_interrupts, enable_interrupts_and_halt,
}

-- What happens next: an interrupt with its vector, and the byte at the keyboard's data port then; or a round of the
-- loop.
pub data Event : Type 0 where
  interrupt : ℕ → ℕ → Event
  round : Event

-- The processor waits no longer.
abbrev pub wake : Parts → Parts
wake p = record p { cpu = record p.cpu { waiting = false } }

module _ (line_status : ℕ → ℕ) where
  -- A round, once the queue was asked for a character, with interrupts disabled.
  unfoldable pub work_on : Option (ℕ × Input) → System → Outcome
  work_on none s = running (with_parts s (enable_interrupts_and_halt s.kernel))
  work_on (some (ascii, input)) s =
      handle_character line_status
        (with_parts s (enable_interrupts (record s.kernel { input = input }))) ascii

  -- `kernel_work_run_once`.
  unfoldable pub work_run_once : System → Outcome
  work_run_once s =
      if is_in_context s.interrupts
      then kernel_panic line_status (some (text "Foreground work invoked from interrupt context")) s
      else work_on (try_read_character s.kernel.input false)
          (with_parts s (disable_interrupts s.kernel))

  abbrev pub after_interrupt : Ended System → Outcome
  after_interrupt (returned s) = running s
  after_interrupt (panicked message s) = kernel_panic line_status (some (text message)) s

  -- An interrupt is held back while interrupts are disabled. It ends the wait of the processor. A round does
  -- not begin while the processor waits.
  unfoldable pub step : Event → System → Outcome
  step (interrupt vector raw_scancode) s =
      if not s.kernel.cpu.interrupts_enabled
      then running s
      else after_interrupt (
          irq_handler (call_handler line_status raw_scancode) (with_parts s (wake s.kernel))
            (some vector))
  step round s = if s.kernel.cpu.waiting then running s else work_run_once s

  -- Events in any order, up to the last or to a panic.
  unfoldable pub run : List Event → System → Outcome
  run [] s = running s
  run (e ∷ es) s = elim (step e s) [ running t ↦ run es t | halted t ↦ halted t ]

  -- `isr_handler`, which every processor exception reaches: the number of its vector and its error code.
  unfoldable pub isr_handler : Option (ℕ × ℕ) → System → Outcome
  isr_handler none s =
      kernel_panic line_status (some (text "CPU exception arrived without an interrupt frame")) s
  isr_handler (some (interrupt_number, error_code)) s =
      kernel_panic line_status (some (text "Unhandled CPU exception")) (
        with_parts s (
          emit line_status
            (say (text "Exception vector: ")
              ∷ decimal32 interrupt_number
              ∷ put 10
              ∷ say (text "Exception error code: ")
              ∷ hex32 error_code
              ∷ put 10
              ∷ [])
            s.kernel))
