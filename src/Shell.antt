-- ===== src/Shell.antt =====
-- The shell, src/kernel/shell.c.
pub mod Buffer
pub mod Output
pub mod Commands
pub mod Line
pub mod Table
pub mod Refine
pub mod Thread
pub mod Steps
pub mod Atomic
pub mod Whole
pub mod Tests
use wig_osx.Base.{
  ℕ, ◌+◌, ◌-◌, ◌%◌, Bool, true, false, not, Option, none, some, List, [], ◌∷◌, ltb, leb, ◌==◌,
  if◌then◌else◌, update,
}
use wig_osx.Base.Loops.{for_range}
use wig_osx.Base.Text.{text}
use wig_osx.Console
use wig_osx.Interrupts.{is_in_context}
use wig_osx.Log.{say}
use wig_osx.System.{System, Parts, Outcome, running, with_parts, on_console, emit, kernel_panic}
use wig_osx.Version.{stage_label}
use Buffer.{Shell, buffer_size}
use Commands.{execute_command}

unfoldable pub print_prompt : Parts → Parts
print_prompt p = on_console (λ c. Console.writestring c (text "wigOSX> ")) p

unfoldable pub reset_buffer : Shell → Shell
reset_buffer s =
    record (for_range buffer_size 0 (λ i t. record t { buffer = update t.buffer i 0 }) s) {
      buffer_length = 0;
    }

unfoldable pub initialize : Parts → Parts
initialize p =
    let reset : Parts = record p { shell = reset_buffer p.shell } in
    let a = on_console (λ c. Console.writestring c stage_label) reset in
    let b = on_console (λ c. Console.writestring c (text " shell ready.\n")) a in
    print_prompt (on_console (λ c. Console.writestring c (text "Type 'help' for commands.\n")) b)

unfoldable pub handle_backspace : Parts → Parts
handle_backspace p =
    if ltb 0 p.shell.buffer_length
    then on_console (λ c. Console.putchar c 8)
        (record p {
          shell = record {
            buffer = update p.shell.buffer (p.shell.buffer_length - 1) 0;
            buffer_length = p.shell.buffer_length - 1;
          };
        })
    else p

module _ (line_status : ℕ → ℕ) where
  -- The character `'\n'`: the line is executed.
  unfoldable pub handle_newline : System → System
  handle_newline s =
      let p = on_console (λ c. Console.putchar c 10) s.kernel in
      let buffer = update p.shell.buffer p.shell.buffer_length 0 in
      let stored : Parts = record p { shell = record p.shell { buffer = buffer } } in
      let done = execute_command line_status buffer (with_parts s stored) in
      with_parts done (print_prompt (record done.kernel { shell = reset_buffer done.kernel.shell }))

  -- The end of `shell_handle_character`: any other character is stored, if there is room, and shown.
  unfoldable pub handle_other : ℕ → Parts → Parts
  handle_other ascii p =
      if leb (buffer_size - 1) p.shell.buffer_length
      then print_prompt
          (emit line_status (say (text "\n[WARNING] Shell input buffer full.\n") ∷ []) p)
      else on_console (λ c. Console.putchar c ascii)
          (record p {
            shell = record {
              buffer = update p.shell.buffer p.shell.buffer_length ascii;
              buffer_length = p.shell.buffer_length + 1;
            };
          })

  unfoldable pub handle_character : System → ℕ → Outcome
  handle_character s ascii =
      if is_in_context s.interrupts
      then kernel_panic line_status (some (text "Shell invoked from interrupt context")) s
      else if ascii == 10
      then running (handle_newline s)
      else if ascii == 8
      then running (with_parts s (handle_backspace s.kernel))
      else if ascii == 9
      then running s
      else running (with_parts s (handle_other ascii s.kernel))
