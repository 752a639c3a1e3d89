-- ===== src/Shell/Output.antt =====
-- What the commands of the shell print, src/kernel/shell.c.
use wig_osx.Base.{
  ℕ, zero, suc, ◌+◌, ◌%◌, false, Option, none, some, List, [], ◌∷◌, ◌++◌, if◌then◌else◌,
}
use wig_osx.Base.Text.{text}
use wig_osx.Console
use wig_osx.Console.{Console}
use wig_osx.Format.{uint32_decimal}
use wig_osx.Heap
use wig_osx.Heap.{Heap}
use wig_osx.Input.{Input, get_pending_character_count, get_dropped_character_count}
use wig_osx.Interrupts.{Interrupts, get_irq_count}
use wig_osx.Log.{formatted_text}
use wig_osx.Version.{version_string, stage_label}

-- What a command prints on the console: `console_writestring`, `console_putchar`, `shell_print_uint32`.
pub data Printed : Type 0 where
  string : List ℕ → Printed
  character : ℕ → Printed
  number : ℕ → Printed

print_text : Option (List ℕ) → Console → Console
print_text none c = c
print_text (some digits) c = Console.writestring c digits

unfoldable pub print_uint32 : ℕ → Console → Console
unfolding print_text
print_uint32 value c = print_text (formatted_text (uint32_decimal value false 11)) c

unfoldable pub print_all : List Printed → Console → Console
print_all [] c = c
print_all (string t ∷ ps) c = print_all ps (Console.writestring c t)
print_all (character x ∷ ps) c = print_all ps (Console.putchar c x)
print_all (number v ∷ ps) c = print_all ps (print_uint32 v c)

-- A label, a number and the end of the line.
counter : List ℕ → ℕ → List Printed
counter label value = string label ∷ number value ∷ character 10 ∷ []

unfoldable pub command_help : List Printed
command_help =
    string (text "wigOSX commands:\n")
    ∷ string (text "  help     - show this help text\n")
    ∷ string (text "  clear    - clear the screen\n")
    ∷ string (text "  version  - show kernel version\n")
    ∷ string (text "  ticks    - show PIT tick count\n")
    ∷ string (text "  irq      - show interrupt-context and IRQ diagnostics\n")
    ∷ string (text "  input    - show queued and dropped input counts\n")
    ∷ string (text "  mem      - show detected memory summary\n")
    ∷ string (text "  pmm      - show physical memory manager summary\n")
    ∷ string (text "  pmm_test - run a basic PMM allocation/free self-test\n")
    ∷ string (text "  paging   - show paging and identity-map summary\n")
    ∷ string (text "  heap     - show kernel heap backing-region summary\n")
    ∷ string (text "  about    - describe the current stage\n")
    ∷ string (text "  scroll   - print lines to test terminal scrolling\n")
    ∷ []

unfoldable pub command_version : List Printed
command_version = string (text "wigOSX ") ∷ string version_string ∷ character 10 ∷ []

unfoldable pub command_ticks : ℕ → List Printed
unfolding counter
command_ticks ticks = counter (text "PIT ticks since initialization: ") ticks

unfoldable pub command_about : List Printed
command_about =
    string stage_label
    ∷ string (text ".\n")
    ∷ string (
        text
          "Kernel services now use explicit console, logging, panic, input, and interrupt boundaries.\n")
    ∷ string (text "Identity paging remains active for the first 16 MiB.\n")
    ∷ []

unfoldable pub command_input : Input → List Printed
unfolding counter
command_input s =
    counter (text "Queued input characters: ") (get_pending_character_count s)
    ++ counter (text "Dropped input characters: ") (get_dropped_character_count s)

-- The lines of `shell_command_scrolltest`, of so many rounds from `i` on.
scroll_lines : ℕ → ℕ → List Printed
unfolding counter
scroll_lines zero i = []
scroll_lines (suc left) i = counter (text "scroll test line ") i ++ scroll_lines left (i + 1)

unfoldable pub command_scrolltest : List Printed
unfolding scroll_lines
command_scrolltest = scroll_lines 40 0

unfoldable pub command_irq : {H : Type 0} → Interrupts H → List Printed
unfolding counter
command_irq s =
    counter (text "Interrupt context depth: ") s.interrupt_context_depth
    ++ counter (text "PIT IRQ0 dispatches: ") (get_irq_count s 0)
    ++ counter (text "Keyboard IRQ1 dispatches: ") (get_irq_count s 1)
    ++ counter (text "Unhandled IRQ dispatches: ") s.unhandled_irq_count
    ++ counter (text "Invalid IRQ dispatches: ") s.invalid_irq_count

unfoldable pub command_heap : Heap → List Printed
unfolding counter
command_heap s =
    string (text "Heap initialized: ")
    ∷ string (if s.initialized then text "yes\n" else text "no\n")
    ∷ (counter (text "Heap capacity bytes: ") (Heap.get_capacity s % 4294967296)
        ++ (string (text "Allocator available: no\n") ∷ []))

-- The answer to any other line.
unfoldable pub command_unknown : List ℕ → List Printed
command_unknown command =
    string (text "Unknown command: ")
    ∷ string command
    ∷ character 10
    ∷ string (text "Type 'help' for available commands.\n")
    ∷ []
