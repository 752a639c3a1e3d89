-- ===== src/Kernel/Preempt.antt =====
-- The foreground loop step by step, with interrupts between any two steps, src/kernel/work.c and
-- src/kernel/shell.c. The part of a round with interrupts disabled is one step, with the check before it.
use wig_osx.Base.{ℕ, false, Option, none, some, List, [], ◌∷◌, if◌then◌else◌}
use wig_osx.Base.Text.{text}
use wig_osx.Input.{Input, try_read_character}
use wig_osx.Interrupts.{is_in_context}
use wig_osx.Kernel.{interrupt, step}
use wig_osx.Shell.Steps.{character_thread}
use wig_osx.Shell.Thread.{Thread, finished, panics, act}
use wig_osx.System.{
  System, Outcome, running, halted, with_parts, kernel_panic, disable_interrupts, enable_interrupts,
  enable_interrupts_and_halt,
}

-- What happens next: an interrupt, with its vector and the byte at the keyboard's data port, or a step of the
-- foreground.
pub data Moment : Type 0 where
  signal : ℕ → ℕ → Moment
  forward : Moment

-- The kernel goes on, with a part of a round left to do, or has stopped for good.
pub data Progress : Type 0 where
  going : System → Thread → Progress
  stopped : System → Progress

abbrev pub goes_on : Thread → Outcome → Progress
goes_on t (running s) = going s t
goes_on t (halted s) = stopped s

module _ (line_status : ℕ → ℕ) where
  -- The end of the part with interrupts disabled: the processor waits, or a character is to be handled.
  unfoldable pub begin_with : Option (ℕ × Input) → System → Progress
  begin_with none s = going (with_parts s (enable_interrupts_and_halt s.kernel)) finished
  begin_with (some (ascii, input)) s =
      going (with_parts s (enable_interrupts (record s.kernel { input = input })))
        (character_thread line_status ascii)

  -- `kernel_work_run_once` up to the call of `shell_handle_character`.
  unfoldable pub begin_round : System → Progress
  begin_round s =
      if is_in_context s.interrupts
      then goes_on finished (
          kernel_panic line_status (some (text "Foreground work invoked from interrupt context")) s)
      else begin_with (try_read_character s.kernel.input false)
          (with_parts s (disable_interrupts s.kernel))

  unfoldable pub advance : Moment → System → Thread → Progress
  advance (signal vector raw_scancode) s t =
      goes_on t (step line_status (interrupt vector raw_scancode) s)
  advance forward s finished = if s.kernel.cpu.waiting then going s finished else begin_round s
  advance forward s (panics message) = goes_on finished (kernel_panic line_status (some message) s)
  advance forward s (act f rest) = going (f s) (rest s)

  unfoldable pub run_moments : List Moment → System → Thread → Progress
  run_moments [] s t = going s t
  run_moments (m ∷ ms) s t = elim (advance m s t) [
    | going r u ↦ run_moments ms r u
    | stopped r ↦ stopped r
  ]
