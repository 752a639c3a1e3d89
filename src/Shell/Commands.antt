-- ===== src/Shell/Commands.antt =====
-- The commands of the shell, src/kernel/shell.c: which one a line asks for, and what it does.
use wig_osx.Base.{ℕ, Bool, List, [], ◌∷◌, if◌then◌else◌}
use wig_osx.Base.Text.{text}
use wig_osx.Console
use wig_osx.Memory
use wig_osx.Pmm
use wig_osx.Pmm.{Pmm, run_basic_self_test}
use wig_osx.Shell.Buffer.{strings_equal, command_is_empty, literal, command_text}
use wig_osx.Shell.Output.{
  string, print_all, command_help, command_version, command_ticks, command_irq, command_input,
  command_heap, command_about, command_scrolltest, command_unknown,
}
use wig_osx.System.{System, Parts, with_parts, on_console, emit}
use wig_osx.Vmm

-- The commands, and what the line holds otherwise.
pub data Command : Type 0 where
  no_command : Command
  help_command : Command
  clear_command : Command
  version_command : Command
  ticks_command : Command
  irq_command : Command
  input_command : Command
  mem_command : Command
  pmm_command : Command
  pmm_test_command : Command
  heap_command : Command
  paging_command : Command
  about_command : Command
  scroll_command : Command
  unknown_command : Command

-- The tests of `shell_execute_command`, in order.
unfoldable pub choose_command : (ℕ → ℕ) → Command
choose_command command =
    if command_is_empty command
    then no_command
    else if strings_equal command (literal (text "help"))
    then help_command
    else if strings_equal command (literal (text "clear"))
    then clear_command
    else if strings_equal command (literal (text "version"))
    then version_command
    else if strings_equal command (literal (text "ticks"))
    then ticks_command
    else if strings_equal command (literal (text "irq"))
    then irq_command
    else if strings_equal command (literal (text "input"))
    then input_command
    else if strings_equal command (literal (text "mem"))
    then mem_command
    else if strings_equal command (literal (text "pmm"))
    then pmm_command
    else if strings_equal command (literal (text "pmm_test"))
    then pmm_test_command
    else if strings_equal command (literal (text "heap"))
    then heap_command
    else if strings_equal command (literal (text "paging"))
    then paging_command
    else if strings_equal command (literal (text "about"))
    then about_command
    else if strings_equal command (literal (text "scroll"))
    then scroll_command
    else unknown_command

-- The answer to the command `pmm_test`.
test_answer : Bool × Pmm → Parts → Parts
test_answer (passed, pmm) p =
    on_console
      (print_all (
        string (if passed then text "PMM self-test passed.\n" else text "PMM self-test failed.\n")
        ∷ []))
      (record p { pmm = pmm })

module _ (line_status : ℕ → ℕ) where
  -- What the command chosen does; `line` is the text of the command.
  unfoldable pub run_command : Command → List ℕ → System → System
  unfolding test_answer
  run_command no_command line s = s
  run_command help_command line s = with_parts s (on_console (print_all command_help) s.kernel)
  run_command clear_command line s = with_parts s (on_console Console.clear s.kernel)
  run_command version_command line s =
      with_parts s (on_console (print_all command_version) s.kernel)
  run_command ticks_command line s =
      with_parts s (on_console (print_all (command_ticks s.kernel.ticks)) s.kernel)
  run_command irq_command line s =
      with_parts s (on_console (print_all (command_irq s.interrupts)) s.kernel)
  run_command input_command line s =
      with_parts s (on_console (print_all (command_input s.kernel.input)) s.kernel)
  run_command mem_command line s =
      with_parts s (emit line_status (Memory.Print.print_summary s.kernel.memory) s.kernel)
  run_command pmm_command line s =
      with_parts s (emit line_status (Pmm.Print.print_summary s.kernel.pmm) s.kernel)
  run_command pmm_test_command line s =
      with_parts s (test_answer (run_basic_self_test s.kernel.pmm) s.kernel)
  run_command heap_command line s =
      with_parts s (on_console (print_all (command_heap s.kernel.heap)) s.kernel)
  run_command paging_command line s =
      with_parts s (emit line_status (Vmm.Print.print_summary s.kernel.vmm) s.kernel)
  run_command about_command line s = with_parts s (on_console (print_all command_about) s.kernel)
  run_command scroll_command line s =
      with_parts s (on_console (print_all command_scrolltest) s.kernel)
  run_command unknown_command line s =
      with_parts s (on_console (print_all (command_unknown line)) s.kernel)

  unfoldable pub execute_command : (ℕ → ℕ) → System → System
  execute_command command s = run_command (choose_command command) (command_text command) s
