-- ===== src/Shell/Refine.antt =====
-- The shell as a line editor.
use wig_osx.Base.{
  ℕ, ◌+◌, ◌-◌, ◌≡◌, refl, sym, ap, ◌∙◌, subst, inl, inr, false, List, [], ◌∷◌, ◌++◌, length, arith,
  leb, ltb, ◌==◌, if◌then◌else◌, pick_then, pick_else, Bool-cases, update,
}
use wig_osx.Base.Text.{text, c_string}
use wig_osx.Console
use wig_osx.Interrupts.{is_in_context}
use wig_osx.Log.{say}
use wig_osx.Shell.Buffer.{Shell, command_text}
use wig_osx.Shell.Commands.{
  Command, run_command, execute_command, no_command, help_command, clear_command, version_command,
  ticks_command, irq_command, input_command, mem_command, pmm_command, pmm_test_command,
  heap_command, paging_command, about_command, scroll_command, unknown_command,
}
use wig_osx.Shell.Line.{
  Holds, Untouched, edit, drop_last, terminated-command_text, reset_buffer-Holds, store-Holds,
  drop-Holds, drop_last-nil, terminate-Untouched,
}
use wig_osx.Shell.Table.{command_table, find, choose_command-find}
use wig_osx.Shell.{
  print_prompt, reset_buffer, handle_newline, handle_backspace, handle_other, handle_character,
}
use wig_osx.System.{System, running, with_parts, on_console, emit}

abbrev pub with_shell : System → Shell → System
with_shell s b = with_parts s (record s.kernel { shell = b })

module _ (line_status : ℕ → ℕ) where
  -- What a character does to everything but the buffer, given the line.
  unfoldable pub respond : ℕ → List ℕ → System → System
  respond c line s =
      if c == 10
      then (let done =
            run_command line_status (find command_table (c_string line)) (c_string line)
              (with_parts s (on_console (λ k. Console.putchar k 10) s.kernel)) in
          with_parts done (print_prompt done.kernel))
      else if c == 8
      then (if length line == 0
          then s
          else with_parts s (on_console (λ k. Console.putchar k 8) s.kernel))
      else if c == 9
      then s
      else if leb 63 (length line)
      then with_parts s (
          print_prompt
            (emit line_status (say (text "\n[WARNING] Shell input buffer full.\n") ∷ []) s.kernel))
      else with_parts s (on_console (λ k. Console.putchar k c) s.kernel)

  -- No command reads or changes the buffer.
  run_command-with_shell :
      (c : Command) (line : List ℕ) (s : System) (b : Shell)
      → run_command line_status c line (with_shell s b)
        ≡ with_shell (run_command line_status c line s) b
  unfolding run_command
  run_command-with_shell no_command line s b = refl
  run_command-with_shell help_command line s b = refl
  run_command-with_shell clear_command line s b = refl
  run_command-with_shell version_command line s b = refl
  run_command-with_shell ticks_command line s b = refl
  run_command-with_shell irq_command line s b = refl
  run_command-with_shell input_command line s b = refl
  run_command-with_shell mem_command line s b = refl
  run_command-with_shell pmm_command line s b = refl
  run_command-with_shell pmm_test_command line s b = refl
  run_command-with_shell heap_command line s b = refl
  run_command-with_shell paging_command line s b = refl
  run_command-with_shell about_command line s b = refl
  run_command-with_shell scroll_command line s b = refl
  run_command-with_shell unknown_command line s b = refl

  module _ (line : List ℕ) (s : System) (v : Holds s.kernel.shell line) where
    executed :
        let b : Shell = record s.kernel.shell {
          buffer = update s.kernel.shell.buffer s.kernel.shell.buffer_length 0;
        } in
        let start = with_parts s (on_console (λ k. Console.putchar k 10) s.kernel) in
        execute_command line_status b.buffer (with_shell start b)
        ≡ with_shell
            (run_command line_status (find command_table (c_string line)) (c_string line) start)
            b
    unfolding execute_command
    executed =
        let b : Shell = record s.kernel.shell {
          buffer = update s.kernel.shell.buffer s.kernel.shell.buffer_length 0;
        } in
        let start = with_parts s (on_console (λ k. Console.putchar k 10) s.kernel) in
        let e = terminated-command_text s.kernel.shell line v in
        ap (λ c. run_command line_status c (command_text b.buffer) (with_shell start b))
          (choose_command-find b.buffer)
        ∙ ap (λ t. run_command line_status (find command_table t) t (with_shell start b)) e
        ∙ run_command-with_shell (find command_table (c_string line)) (c_string line) start b

    newline_lem :
        (next : Shell) × (handle_newline line_status s
          ≡ with_shell
              (let done =
                  run_command line_status
                    (find command_table (c_string line))
                    (c_string line)
                    (with_parts s (on_console (λ k. Console.putchar k 10) s.kernel)) in
                with_parts done (print_prompt done.kernel))
              next)
        × Holds next []
        × Untouched s.kernel.shell next
    unfolding handle_newline print_prompt
    newline_lem =
        let b : Shell = record s.kernel.shell {
          buffer = update s.kernel.shell.buffer s.kernel.shell.buffer_length 0;
        } in
        let (empty, high) = reset_buffer-Holds b in
        (
          reset_buffer b,
          ap
              (λ (done : System).
                with_parts done
                  (print_prompt (record done.kernel { shell = reset_buffer done.kernel.shell })))
              executed,
          empty,
          λ i h. high i h ∙ terminate-Untouched s.kernel.shell line v i h,
        )

    backspace_lem :
        (next : Shell) × (with_parts s (handle_backspace s.kernel)
          ≡ with_shell
              (if length line == 0
                then s
                else with_parts s (on_console (λ k. Console.putchar k 8) s.kernel))
              next)
        × Holds next (drop_last line)
        × Untouched s.kernel.shell next
    unfolding handle_backspace
    backspace_lem = elim (Bool-cases (length line == 0)) [
      | inl e ↦ rw e (
        s.kernel.shell,
        ap (with_parts s) (
            pick_else (ltb 0 s.kernel.shell.buffer_length) _ _
              (ground (arith, e, v.buffer_length))),
        subst (Holds s.kernel.shell) (sym (drop_last-nil line (ground (arith, e)))) v,
        λ i h. refl,
      )
      | inr e ↦ rw e (
        record {
          buffer = update s.kernel.shell.buffer (s.kernel.shell.buffer_length - 1) 0;
          buffer_length = s.kernel.shell.buffer_length - 1;
        },
        ap (with_parts s) (
            pick_then (ltb 0 s.kernel.shell.buffer_length) _ _
              (ground (arith, e, v.buffer_length))),
        (drop-Holds s.kernel.shell line v (ground (arith, e))).0,
        (drop-Holds s.kernel.shell line v (ground (arith, e))).1,
      )
    ]

    other_lem :
        (c : ℕ)
        → (next : Shell) × (with_parts s (handle_other line_status c s.kernel)
            ≡ with_shell
                (if leb 63 (length line)
                  then with_parts s (
                      print_prompt (
                        emit line_status
                          (say (text "\n[WARNING] Shell input buffer full.\n") ∷ [])
                          s.kernel))
                  else with_parts s (on_console (λ k. Console.putchar k c) s.kernel))
                next)
          × Holds next (if leb 63 (length line) then line else line ++ (c ∷ []))
          × Untouched s.kernel.shell next
    unfolding handle_other print_prompt
    other_lem c = elim (Bool-cases (leb 63 (length line))) [
      | inl e ↦ rw e (
        s.kernel.shell,
        ap (with_parts s) (
            pick_then (leb 63 s.kernel.shell.buffer_length) _ _
              (ground (arith, e, v.buffer_length))),
        v,
        λ i h. refl,
      )
      | inr e ↦ rw e (
        record {
          buffer = update s.kernel.shell.buffer s.kernel.shell.buffer_length c;
          buffer_length = s.kernel.shell.buffer_length + 1;
        },
        ap (with_parts s) (
            pick_else (leb 63 s.kernel.shell.buffer_length) _ _
              (ground (arith, e, v.buffer_length))),
        (store-Holds s.kernel.shell line v c (ground (arith, e))).0,
        (store-Holds s.kernel.shell line v c (ground (arith, e))).1,
      )
    ]

    -- Outside an interrupt, a character makes of the line what `edit` says, and of everything else what `respond`
    -- says, the command that is executed being the one that the table has for the line.
    pub handle_character-Holds :
        (c : ℕ)
        → is_in_context s.interrupts ≡ false
        → (next : Shell) × (handle_character line_status s c
            ≡ running (with_shell (respond c line s) next))
          × Holds next (edit c line)
          × Untouched s.kernel.shell next
    unfolding handle_character respond edit
    handle_character-Holds c out =
        subst
          (λ o.
            (next : Shell) × (o ≡ running (with_shell (respond c line s) next))
            × Holds next (edit c line)
            × Untouched s.kernel.shell next)
          (sym (pick_else (is_in_context s.interrupts) _ _ out))
          (elim (Bool-cases (c == 10)) [
            | inl e ↦ rw e (let (n, p, h, u) = newline_lem in (n, ap running p, h, u))
            | inr e10 ↦ elim (Bool-cases (c == 8)) [
              | inl e ↦ rw (e10, e) (let (n, p, h, u) = backspace_lem in (n, ap running p, h, u))
              | inr e8 ↦ elim (Bool-cases (c == 9)) [
                | inl e ↦ rw (e10, e8, e) (s.kernel.shell, refl, v, λ i h. refl)
                | inr e ↦
                    rw (e10, e8, e) (let (n, p, h, u) = other_lem c in (n, ap running p, h, u))
              ]
            ]
          ])
