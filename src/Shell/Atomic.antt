-- ===== src/Shell/Atomic.antt =====
-- The steps of the shell, one after the other, do what the shell does at once.
use wig_osx.Base.{
  ℕ, ◌≡◌, refl, sym, ap, ◌∙◌, Bool, true, false, List, [], ◌∷◌, ltb, leb, ◌==◌, if◌then◌else◌,
  update,
}
use wig_osx.Console
use wig_osx.Interrupts.{is_in_context}
use wig_osx.Log
use wig_osx.Log.{Call}
use wig_osx.Shell.Buffer.{command_text}
use wig_osx.Shell.Commands.{
  Command, choose_command, run_command, execute_command, no_command, help_command, clear_command,
  version_command, ticks_command, irq_command, input_command, mem_command, pmm_command,
  pmm_test_command, heap_command, paging_command, about_command, scroll_command, unknown_command,
}
use wig_osx.Shell.Output.{
  Printed, string, character, number, print_all, command_ticks, command_irq, command_input,
  command_heap, command_help, command_version, command_about, command_scrolltest, command_unknown,
}
use wig_osx.Shell.Steps.{
  print_thread, fixed, log_thread, pmm_test_thread, command_thread, newline_thread,
  backspace_thread, other_thread, character_thread, on_shell,
}
use wig_osx.Shell.Thread.{Thread, finished, panics, act, after, finish}
use wig_osx.Shell.{handle_newline, handle_backspace, handle_other, handle_character}
use wig_osx.System.{
  System, Parts, Outcome, running, halted, with_parts, on_console, emit, kernel_panic,
}

print_all_cons :
    (p : Printed) (ps : List Printed) (c : _)
    → print_all (p ∷ ps) c ≡ print_all ps (print_all (p ∷ []) c)
unfolding print_all
print_all_cons (string t) ps c = refl
print_all_cons (character x) ps c = refl
print_all_cons (number v) ps c = refl

state_of : System → Outcome → System
state_of d (running s) = s
state_of d (halted s) = d

if_running :
    (b : Bool) (s : System) (p q : Parts)
    → (if b then running (with_parts s p) else running (with_parts s q))
      ≡ running (with_parts s (if b then p else q))
if_running true s p q = refl
if_running false s p q = refl

module _ (line_status : ℕ → ℕ) where
  finish-after :
      (t u : Thread) (s r : System)
      → finish line_status t s ≡ running r
      → finish line_status (after t u) s ≡ finish line_status u r
  unfolding finish after kernel_panic state_of
  finish-after finished u s r e = ap (λ o. finish line_status u (state_of s o)) e
  finish-after (panics m) u s r e = absurd (cc e)
  finish-after (act f rest) u s r e = finish-after (rest s) u (f s) r e

  finish-if :
      (b : Bool) (t u : Thread) (s : System) (o q : Outcome)
      → (b ≡ true → finish line_status t s ≡ o)
      → (b ≡ false → finish line_status u s ≡ q)
      → finish line_status (if b then t else u) s ≡ (if b then o else q)
  finish-if true t u s o q h k = h refl
  finish-if false t u s o q h k = k refl

  finish-fixed :
      (ps : List Printed) (s : System)
      → finish line_status (print_thread (fixed ps)) s
        ≡ running (with_parts s (on_console (print_all ps) s.kernel))
  unfolding finish print_thread print_all
  finish-fixed [] s = refl
  finish-fixed (p ∷ ps) s =
      finish-fixed ps (with_parts s (on_console (print_all (p ∷ [])) s.kernel))
      ∙ ap (λ c. running (with_parts s (on_console (λ k. c) s.kernel)))
          (sym (print_all_cons p ps s.kernel.log.console))

  finish-log :
      (cs : List Call) (s : System)
      → finish line_status (log_thread line_status cs) s
        ≡ running (with_parts s (emit line_status cs s.kernel))
  unfolding finish log_thread Log.perform
  finish-log [] s = refl
  finish-log (c ∷ cs) s = finish-log cs (with_parts s (emit line_status (c ∷ []) s.kernel))

  finish-command :
      (c : Command) (line : List ℕ) (s : System)
      → finish line_status (command_thread line_status c line) s
        ≡ running (run_command line_status c line s)
  unfolding finish command_thread run_command print_thread print_all pmm_test_thread command_ticks
      command_irq command_input command_heap
  finish-command no_command line s = refl
  finish-command help_command line s = finish-fixed command_help s
  finish-command clear_command line s = refl
  finish-command version_command line s = finish-fixed command_version s
  finish-command ticks_command line s = refl
  finish-command irq_command line s = refl
  finish-command input_command line s = refl
  finish-command mem_command line s = finish-log _ s
  finish-command pmm_command line s = finish-log _ s
  finish-command pmm_test_command line s = refl
  finish-command heap_command line s = refl
  finish-command paging_command line s = finish-log _ s
  finish-command about_command line s = finish-fixed command_about s
  finish-command scroll_command line s = finish-fixed command_scrolltest s
  finish-command unknown_command line s = finish-fixed (command_unknown line) s

  finish-newline :
      (s : System)
      → finish line_status (newline_thread line_status) s ≡ running (handle_newline line_status s)
  unfolding finish newline_thread handle_newline execute_command after
  finish-newline s =
      let start = with_parts s (on_console (λ c. Console.putchar c 10) s.kernel) in
      let stored = on_shell (λ b. record b { buffer = update b.buffer b.buffer_length 0 }) start in
      let buffer = stored.kernel.shell.buffer in
      finish-after (command_thread line_status (choose_command buffer) (command_text buffer)) _
        stored (run_command line_status (choose_command buffer) (command_text buffer) stored)
        (finish-command (choose_command buffer) (command_text buffer) stored)

  finish-backspace :
      (s : System)
      → finish line_status (backspace_thread line_status) s
        ≡ running (with_parts s (handle_backspace s.kernel))
  unfolding finish backspace_thread handle_backspace
  finish-backspace s =
      finish-if (ltb 0 s.kernel.shell.buffer_length) _ _ s _ _ (λ e. refl) (λ e. refl)
      ∙ if_running (ltb 0 s.kernel.shell.buffer_length) s _ _

  finish-other :
      (c : ℕ) (s : System)
      → finish line_status (other_thread line_status c) s
        ≡ running (with_parts s (handle_other line_status c s.kernel))
  unfolding finish other_thread handle_other
  finish-other c s =
      finish-if (leb 63 s.kernel.shell.buffer_length) _ _ s _ _ (λ e. refl) (λ e. refl)
      ∙ if_running (leb 63 s.kernel.shell.buffer_length) s _ _

  -- The steps of `shell_handle_character`, taken one after the other, have the outcome of the whole, for any
  -- character and any state, a panic included.
  pub finish-character :
      (c : ℕ) (s : System)
      → finish line_status (character_thread line_status c) s ≡ handle_character line_status s c
  unfolding finish character_thread handle_character
  finish-character c s =
      finish-if (is_in_context s.interrupts) _ _ s _ _ (λ e. refl)
        (λ e.
          finish-if (c == 10) _ _ s _ _ (λ e. finish-newline s)
            (λ e.
              finish-if (c == 8) _ _ s _ _ (λ e. finish-backspace s)
                (λ e. finish-if (c == 9) _ _ s _ _ (λ e. refl) (λ e. finish-other c s))))
