-- ===== src/Shell/Table.antt =====
-- The table of the commands, and that the shell chooses by it.
use wig_osx.Base.{ℕ, ◌≤◌, ◌≡◌, refl, true, List, [], ◌∷◌, length, arith, if◌then◌else◌}
use wig_osx.Base.Text.{text, no_zeros}
use wig_osx.Shell.Buffer.{
  strings_equal, strings_equal_lem, command_is_empty, literal, same_text, string_at, command_text,
}
use wig_osx.Shell.Commands.{
  Command, choose_command, no_command, help_command, clear_command, version_command, ticks_command,
  irq_command, input_command, mem_command, pmm_command, pmm_test_command, heap_command,
  paging_command, about_command, scroll_command, unknown_command,
}

abbrev pub command_table : List (List ℕ × Command)
command_table =
    ([], no_command)
    ∷ (text "help", help_command)
    ∷ (text "clear", clear_command)
    ∷ (text "version", version_command)
    ∷ (text "ticks", ticks_command)
    ∷ (text "irq", irq_command)
    ∷ (text "input", input_command)
    ∷ (text "mem", mem_command)
    ∷ (text "pmm", pmm_command)
    ∷ (text "pmm_test", pmm_test_command)
    ∷ (text "heap", heap_command)
    ∷ (text "paging", paging_command)
    ∷ (text "about", about_command)
    ∷ (text "scroll", scroll_command)
    ∷ []

unfoldable pub find : List (List ℕ × Command) → List ℕ → Command
find [] line = unknown_command
find ((name, c) ∷ rest) line = if same_text line name then c else find rest line

command_is_empty_lem : (b : ℕ → ℕ) → command_is_empty b ≡ same_text (command_text b) []
unfolding command_is_empty same_text string_at
command_is_empty_lem b = ground arith

choice_lem :
    (b : ℕ → ℕ) (cs : List ℕ)
    → no_zeros cs ≡ true
    → length cs ≤ 63
    → strings_equal b (literal cs) ≡ same_text (command_text b) cs
choice_lem b cs z h = (strings_equal_lem b cs z h).1

pub choose_command-find : (b : ℕ → ℕ) → choose_command b ≡ find command_table (command_text b)
unfolding choose_command find text no_zeros
choose_command-find b =
    rw
      (
        command_is_empty_lem b,
        choice_lem b (text "help") refl (omega arith),
        choice_lem b (text "clear") refl (omega arith),
        choice_lem b (text "version") refl (omega arith),
        choice_lem b (text "ticks") refl (omega arith),
        choice_lem b (text "irq") refl (omega arith),
        choice_lem b (text "input") refl (omega arith),
        choice_lem b (text "mem") refl (omega arith),
        choice_lem b (text "pmm") refl (omega arith),
        choice_lem b (text "pmm_test") refl (omega arith),
        choice_lem b (text "heap") refl (omega arith),
        choice_lem b (text "paging") refl (omega arith),
        choice_lem b (text "about") refl (omega arith),
        choice_lem b (text "scroll") refl (omega arith),
      )
      refl
