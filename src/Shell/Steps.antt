-- ===== src/Shell/Steps.antt =====
-- The shell, src/kernel/shell.c, step by step: a step is a call of the console or of the log, or a write to the line
-- buffer or to its length. A number that is printed is read just before.
use wig_osx.Base.{ℕ, ◌+◌, ◌-◌, ◌%◌, List, [], ◌∷◌, ◌++◌, map, ltb, leb, ◌==◌, if◌then◌else◌, update}
use wig_osx.Base.Text.{text}
use wig_osx.Console
use wig_osx.Heap
use wig_osx.Input.{get_pending_character_count, get_dropped_character_count}
use wig_osx.Interrupts.{is_in_context, get_irq_count}
use wig_osx.Log.{Call, say}
use wig_osx.Memory
use wig_osx.Pmm
use wig_osx.Pmm.{run_basic_self_test}
use wig_osx.Shell.Buffer.{Shell, buffer_size, command_text}
use wig_osx.Shell.Commands.{
  Command, choose_command, no_command, help_command, clear_command, version_command, ticks_command,
  irq_command, input_command, mem_command, pmm_command, pmm_test_command, heap_command,
  paging_command, about_command, scroll_command, unknown_command,
}
use wig_osx.Shell.Output.{
  Printed, string, character, number, print_all, command_help, command_version, command_about,
  command_scrolltest, command_unknown,
}
use wig_osx.Shell.Thread.{Thread, finished, panics, act, then_do, look, after}
use wig_osx.Shell.{print_prompt, reset_buffer}
use wig_osx.System.{System, Parts, with_parts, on_console, emit}
use wig_osx.Vmm

abbrev pub on_parts : (Parts → Parts) → System → System
on_parts f s = with_parts s (f s.kernel)

abbrev pub on_shell : (Shell → Shell) → System → System
on_shell f s = with_parts s (record s.kernel { shell = f s.kernel.shell })

-- What is printed is found when its turn comes.
unfoldable pub print_thread : List (System → Printed) → Thread
print_thread [] = finished
print_thread (p ∷ ps) =
    then_do (λ s. with_parts s (on_console (print_all (p s ∷ [])) s.kernel)) (print_thread ps)

-- Text that is known beforehand.
abbrev pub fixed : List Printed → List (System → Printed)
fixed ps = map (λ p s. p) ps

abbrev pub counted : List ℕ → (System → ℕ) → List (System → Printed)
counted label read = (λ s. string label) ∷ (λ s. number (read s)) ∷ (λ s. character 10) ∷ []

module _ (line_status : ℕ → ℕ) where
  unfoldable pub log_thread : List Call → Thread
  log_thread [] = finished
  log_thread (c ∷ cs) = then_do (on_parts (emit line_status (c ∷ []))) (log_thread cs)

  -- The self-test works on the frames alone and is one step, with its answer the next.
  unfoldable pub pmm_test_thread : Thread
  pmm_test_thread =
      act (λ s. with_parts s (record s.kernel { pmm = (run_basic_self_test s.kernel.pmm).1 }))
        (λ s. print_thread (
          (λ t. string (
            if (run_basic_self_test s.kernel.pmm).0
            then text "PMM self-test passed.\n"
            else text "PMM self-test failed.\n"))
          ∷ []))

  unfoldable pub command_thread : Command → List ℕ → Thread
  command_thread no_command line = finished
  command_thread help_command line = print_thread (fixed command_help)
  command_thread clear_command line = then_do (on_parts (on_console Console.clear)) finished
  command_thread version_command line = print_thread (fixed command_version)
  command_thread ticks_command line =
      print_thread (counted (text "PIT ticks since initialization: ") (λ s. s.kernel.ticks))
  command_thread irq_command line = print_thread (
      counted (text "Interrupt context depth: ") (λ s. s.interrupts.interrupt_context_depth)
      ++ counted (text "PIT IRQ0 dispatches: ") (λ s. get_irq_count s.interrupts 0)
      ++ counted (text "Keyboard IRQ1 dispatches: ") (λ s. get_irq_count s.interrupts 1)
      ++ counted (text "Unhandled IRQ dispatches: ") (λ s. s.interrupts.unhandled_irq_count)
      ++ counted (text "Invalid IRQ dispatches: ") (λ s. s.interrupts.invalid_irq_count))
  command_thread input_command line = print_thread (
      counted (text "Queued input characters: ") (λ s. get_pending_character_count s.kernel.input)
      ++ counted (text "Dropped input characters: ")
          (λ s. get_dropped_character_count s.kernel.input))
  command_thread mem_command line =
      look (λ s. log_thread (Memory.Print.print_summary s.kernel.memory))
  command_thread pmm_command line = look (λ s. log_thread (Pmm.Print.print_summary s.kernel.pmm))
  command_thread pmm_test_command line = pmm_test_thread
  command_thread heap_command line = print_thread (
      (λ s. string (text "Heap initialized: "))
      ∷ (λ s. string (if s.kernel.heap.initialized then text "yes\n" else text "no\n"))
      ∷ (counted (text "Heap capacity bytes: ") (λ s. Heap.get_capacity s.kernel.heap % 4294967296)
          ++ ((λ s. string (text "Allocator available: no\n")) ∷ [])))
  command_thread paging_command line = look (λ s. log_thread (Vmm.Print.print_summary s.kernel.vmm))
  command_thread about_command line = print_thread (fixed command_about)
  command_thread scroll_command line = print_thread (fixed command_scrolltest)
  command_thread unknown_command line = print_thread (fixed (command_unknown line))

  -- The command that the buffer holds is executed; then the buffer is emptied, and the prompt is shown.
  unfoldable pub newline_thread : Thread
  newline_thread = then_do (on_parts (on_console (λ c. Console.putchar c 10))) (
      then_do (on_shell (λ b. record b { buffer = update b.buffer b.buffer_length 0 })) (
        after
          (look (λ s.
            command_thread (choose_command s.kernel.shell.buffer)
              (command_text s.kernel.shell.buffer)))
          (then_do (on_shell reset_buffer) (then_do (on_parts print_prompt) finished))))

  unfoldable pub backspace_thread : Thread
  backspace_thread = look (λ s.
      if ltb 0 s.kernel.shell.buffer_length
      then then_do (on_shell (λ b. record b { buffer_length = b.buffer_length - 1 })) (
          then_do (on_shell (λ b. record b { buffer = update b.buffer b.buffer_length 0 }))
            (then_do (on_parts (on_console (λ c. Console.putchar c 8))) finished))
      else finished)

  unfoldable pub other_thread : ℕ → Thread
  other_thread ascii = look (λ s.
      if leb (buffer_size - 1) s.kernel.shell.buffer_length
      then then_do
          (on_parts (emit line_status (say (text "\n[WARNING] Shell input buffer full.\n") ∷ [])))
          (then_do (on_parts print_prompt) finished)
      else then_do (on_shell (λ b. record b { buffer = update b.buffer b.buffer_length ascii })) (
          then_do (on_shell (λ b. record b { buffer_length = b.buffer_length + 1 }))
            (then_do (on_parts (on_console (λ c. Console.putchar c ascii))) finished)))

  -- `shell_handle_character`.
  unfoldable pub character_thread : ℕ → Thread
  character_thread ascii = look (λ s.
      if is_in_context s.interrupts
      then panics (text "Shell invoked from interrupt context")
      else if ascii == 10
      then newline_thread
      else if ascii == 8
      then backspace_thread
      else if ascii == 9
      then finished
      else other_thread ascii)
