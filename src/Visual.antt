-- ===== src/Visual.antt =====
-- The visual tests of the terminal, src/kernel/test.c.
pub mod Lines
pub mod Displays
pub mod Rows
pub mod Back
pub mod Sections
pub mod Expected
pub mod Suite
mod Tests
use wig_osx.Base.{ℕ, List, [], ◌∷◌, ◌++◌, take}
use wig_osx.Base.Loops.{for_range}
use wig_osx.Base.Text.{text}
use wig_osx.Color.{
  VgaColor, color_value, black, blue, light_grey, light_green, light_cyan, light_red, light_brown,
  white,
}
use wig_osx.Terminal.{Terminal, initialize, clear, setcolor, putchar, write, vga_entry_color}

abbrev pub colored : VgaColor → VgaColor → Terminal → Terminal
colored foreground background t =
    setcolor t (vga_entry_color (color_value foreground) (color_value background))

unfoldable pub reset_color : Terminal → Terminal
reset_color t = colored light_grey black t

unfoldable pub print_section : List ℕ → Terminal → Terminal
print_section title t =
    let heading = colored light_cyan black (write t (text "\n")) in
    reset_color (write (write (write heading (text "== ")) title) (text " ==\n"))

unfoldable pub print_expected : List ℕ → Terminal → Terminal
print_expected line t =
    let start = colored light_brown black t in
    reset_color (write (write (write start (text "Expected: ")) line) (text "\n"))

unfoldable pub test_terminal_writestring : Terminal → Terminal
test_terminal_writestring t = print_expected (text "A full sentence should appear above.") (
    write (print_section (text "terminal_writestring") t)
      (text "This line was printed with terminal_writestring().\n"))

unfoldable pub test_terminal_putchar : Terminal → Terminal
test_terminal_putchar t =
    print_expected (text "OK")
      (putchar (putchar (putchar (print_section (text "terminal_putchar") t) b'O') b'K') 10)

unfoldable pub test_terminal_write : Terminal → Terminal
test_terminal_write t = print_expected (text "ABCDE") (
    putchar
      (write (print_section (text "terminal_write with explicit size") t)
        (take 5 (text "ABCDE-THIS-SHOULD-NOT-PRINT")))
      10)

unfoldable pub test_newline : Terminal → Terminal
test_newline t =
    let one = write (print_section (text "newline: \\n") t) (text "Line 1\n") in
    print_expected (text "Three separate lines.")
      (write (write one (text "Line 2\n")) (text "Line 3\n"))

unfoldable pub test_tab : Terminal → Terminal
test_tab t =
    print_expected (text "A, B, and C should be spaced apart by tab stops.")
      (write (print_section (text "tab: \\t") t) (text "A\tB\tC\n"))

unfoldable pub test_backspace_same_line : Terminal → Terminal
test_backspace_same_line t =
    print_expected (text "ABD") (
      write (print_section (text "backspace on same line: \\b") t) (text "ABC" ++ (8 ∷ text "D\n")))

unfoldable pub test_backspace_multiple_chars : Terminal → Terminal
test_backspace_multiple_chars t = print_expected (text "HEP!") (
    write (print_section (text "multiple backspaces") t)
      (text "HELLO" ++ (8 ∷ (8 ∷ (8 ∷ text "P!\n")))))

unfoldable pub test_backspace_at_line_start : Terminal → Terminal
test_backspace_at_line_start t =
    print_expected (text "Z should appear at the far right of the previous line.") (
      write (print_section (text "backspace at start of line") t)
        (text "ABC\n" ++ (8 ∷ text "Z\n")))

unfoldable pub test_carriage_return : Terminal → Terminal
test_carriage_return t =
    print_expected (text "ZBC")
      (write (print_section (text "carriage return: \\r") t) (text "ABC\rZ\n"))

unfoldable pub test_color_output : Terminal → Terminal
test_color_output t =
    let start = colored light_green black (print_section (text "VGA color output") t) in
    let one =
      colored light_red black (write start (text "This should be light green on black.\n")) in
    let two = colored white blue (write one (text "This should be light red on black.\n")) in
    print_expected (text "Three different color styles.")
      (reset_color (write two (text "This should be white text on a blue background.\n")))

unfoldable pub test_line_wrapping : Terminal → Terminal
test_line_wrapping t =
    print_expected (text "80 X characters should fill one row, then wrap to the next row.")
      (putchar (for_range 85 0 (λ i u. putchar u b'X') (print_section (text "line wrapping") t)) 10)

unfoldable pub test_tab_near_end_of_line : Terminal → Terminal
test_tab_near_end_of_line t =
    print_expected (text "The T should not corrupt memory. It may wrap to the next line.") (
      write (for_range 77 0 (λ i u. putchar u b'.') (print_section (text "tab near end of line") t))
        (text "\tT\n"))

unfoldable pub test_terminal_clear_function : Terminal → Terminal
test_terminal_clear_function t =
    write
      (clear (
        write (print_section (text "terminal_clear") t)
          (text "This text will disappear after terminal_clear().\n")))
      (text "terminal_clear() worked if this is near the top-left.\n")

unfoldable pub test_form_feed : Terminal → Terminal
test_form_feed t =
    write
      (write
        (write (print_section (text "form feed: \\f") t)
          (text "This text will disappear after form feed.\n"))
        (12 ∷ []))
      (text "Form feed worked if the screen was cleared.\n")

unfoldable pub run_vga_tests : Terminal → Terminal
run_vga_tests t =
    let title =
      write (colored white blue (initialize t)) (text "wigOSX Stage 2 VGA Test Suite\n") in
    let start =
      write (reset_color title) (text "These are visual tests. Read the Expected lines.\n") in
    let writes = test_terminal_write (test_terminal_putchar (test_terminal_writestring start)) in
    let lines = test_backspace_same_line (test_tab (test_newline writes)) in
    let moves =
      test_carriage_return (test_backspace_at_line_start (test_backspace_multiple_chars lines)) in
    let edges = test_tab_near_end_of_line (test_line_wrapping (test_color_output moves)) in
    write (test_form_feed (test_terminal_clear_function edges))
      (text "\nAll VGA visual tests finished.\n")
