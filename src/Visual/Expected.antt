-- ===== src/Visual/Expected.antt =====
-- What each visual test leaves on the screen.
use wig_osx.Base.{◌+◌, refl, List, [], ◌∷◌, ◌++◌, arith, replicate}
use wig_osx.Base.Loops.{for_range}
use wig_osx.Base.Text.{text}
use wig_osx.Terminal.{Terminal, write}
use wig_osx.Terminal.Screen.{Screen}
use wig_osx.Terminal.Shows.{Shows}
use wig_osx.Visual.Back.{Displays-back}
use wig_osx.Visual.Displays.{
  Line, AllStand, Displays, Leaves, heading, further_up, Displays-body, Displays-line,
  Displays-setcolor, Displays-print_section, Displays-print_expected, write_then,
}
use wig_osx.Visual.Lines.{all_visible, BlankRows}
use wig_osx.Visual.Rows.{Displays-row, tab_at_77}
use wig_osx.Visual.Sections.{
  line_at, tabs, one_backspace, three_backspaces, back_to_start, one_line, plain_line,
}
use wig_osx.Visual.{
  reset_color, print_expected, print_section, test_terminal_writestring, test_terminal_putchar,
  test_terminal_write, test_newline, test_tab, test_backspace_same_line,
  test_backspace_multiple_chars, test_backspace_at_line_start, test_carriage_return,
  test_color_output, test_line_wrapping, test_tab_near_end_of_line,
}

-- The tests that display text below a heading.
pub data VisualTest : Type 0 where
  writestring_test : VisualTest
  putchar_test : VisualTest
  write_test : VisualTest
  newline_test : VisualTest
  tab_test : VisualTest
  same_line_test : VisualTest
  multiple_test : VisualTest
  line_start_test : VisualTest
  return_test : VisualTest
  color_test : VisualTest
  wrapping_test : VisualTest
  near_end_test : VisualTest

abbrev pub run_test : VisualTest → Terminal → Terminal
run_test writestring_test t = test_terminal_writestring t
run_test putchar_test t = test_terminal_putchar t
run_test write_test t = test_terminal_write t
run_test newline_test t = test_newline t
run_test tab_test t = test_tab t
run_test same_line_test t = test_backspace_same_line t
run_test multiple_test t = test_backspace_multiple_chars t
run_test line_start_test t = test_backspace_at_line_start t
run_test return_test t = test_carriage_return t
run_test color_test t = test_color_output t
run_test wrapping_test t = test_line_wrapping t
run_test near_end_test t = test_tab_near_end_of_line t

-- The rows above the cursor, upwards, after a test: the expectation, what it is about, and the heading.
abbrev pub expected_lines : VisualTest → List Line
expected_lines writestring_test =
    line_at 1 (text "Expected: A full sentence should appear above.")
    ∷ line_at 2 (text "This line was printed with terminal_writestring().")
    ∷ line_at 3 (text "== terminal_writestring ==")
    ∷ []
expected_lines putchar_test =
    line_at 1 (text "Expected: OK")
    ∷ line_at 2 (text "OK")
    ∷ line_at 3 (text "== terminal_putchar ==")
    ∷ []
expected_lines write_test =
    line_at 1 (text "Expected: ABCDE")
    ∷ line_at 2 (text "ABCDE")
    ∷ line_at 3 (text "== terminal_write with explicit size ==")
    ∷ []
expected_lines newline_test =
    line_at 1 (text "Expected: Three separate lines.")
    ∷ line_at 2 (text "Line 3")
    ∷ line_at 3 (text "Line 2")
    ∷ line_at 4 (text "Line 1")
    ∷ line_at 5 (text "== newline: \\n ==")
    ∷ []
expected_lines tab_test =
    line_at 1 (text "Expected: A, B, and C should be spaced apart by tab stops.")
    ∷ line_at 2 (text "A   B   C")
    ∷ line_at 3 (text "== tab: \\t ==")
    ∷ []
expected_lines same_line_test =
    line_at 1 (text "Expected: ABD")
    ∷ line_at 2 (text "ABD")
    ∷ line_at 3 (text "== backspace on same line: \\b ==")
    ∷ []
expected_lines multiple_test =
    line_at 1 (text "Expected: HEP!")
    ∷ line_at 2 (text "HEP!")
    ∷ line_at 3 (text "== multiple backspaces ==")
    ∷ []
expected_lines line_start_test =
    line_at 1 (text "Expected: Z should appear at the far right of the previous line.")
    ∷ line_at 3 (text "ABC" ++ (replicate 76 b' ' ++ text "Z"))
    ∷ line_at 4 (text "== backspace at start of line ==")
    ∷ []
expected_lines return_test =
    line_at 1 (text "Expected: ZBC")
    ∷ line_at 2 (text "ZBC")
    ∷ line_at 3 (text "== carriage return: \\r ==")
    ∷ []
expected_lines color_test =
    line_at 1 (text "Expected: Three different color styles.")
    ∷ line_at 2 (text "This should be white text on a blue background.")
    ∷ line_at 3 (text "This should be light red on black.")
    ∷ line_at 4 (text "This should be light green on black.")
    ∷ line_at 5 (text "== VGA color output ==")
    ∷ []
expected_lines wrapping_test =
    line_at 1 (text "Expected: 80 X characters should fill one row, then wrap to the next row.")
    ∷ line_at 2 (text "XXXXX")
    ∷ line_at 3 (replicate 80 b'X')
    ∷ line_at 4 (text "== line wrapping ==")
    ∷ []
expected_lines near_end_test =
    line_at 1 (text "Expected: The T should not corrupt memory. It may wrap to the next line.")
    ∷ line_at 2 (text "T")
    ∷ line_at 3 (replicate 77 b'.' ++ text "   ")
    ∷ line_at 4 (text "== tab near end of line ==")
    ∷ []

-- Started on a terminal that shows any screen with nothing below the cursor's row, each of these tests leaves
-- the cursor at the start of a row, with nothing from there on, and above it, row by row, these lines and
-- nothing else in their rows: the line that says what is expected; the lines that it is about; and the heading. The lines are the
-- sentence; `OK`; the first five characters only; three lines in order; letters at the tab stops; `ABD`, `HEP!` and
-- `ZBC` after backspaces and a carriage return; `ABC`, spaces, and Z in the last column; three lines
-- of text; 80 X and, in the next row, the other five; 77 dots, and T in the next row. That holds also if the
-- screen scrolls on the way.
pub run_test-Displays :
    (k : VisualTest) (t : Terminal) (s : Screen)
    → Shows t s
    → BlankRows s (s.row + 1)
    → Displays (run_test k t) (expected_lines k)
unfolding test_terminal_writestring test_terminal_putchar test_terminal_write test_newline test_tab
    test_backspace_same_line test_backspace_multiple_chars test_backspace_at_line_start
    test_carriage_return test_color_output test_line_wrapping test_tab_near_end_of_line reset_color
    write text for_range all_visible wig_osx.Visual.Displays.all_above
run_test-Displays writestring_test t s w b =
    plain_line (text "terminal_writestring")
      (text "This line was printed with terminal_writestring().")
      (text "A full sentence should appear above.") t s refl (omega arith) refl (omega arith) refl
      (omega arith) w b
run_test-Displays putchar_test t s w b =
    plain_line (text "terminal_putchar") (text "OK") (text "OK") t s refl (omega arith) refl
      (omega arith) refl (omega arith) w b
run_test-Displays write_test t s w b =
    plain_line (text "terminal_write with explicit size") (text "ABCDE") (text "ABCDE") t s refl
      (omega arith) refl (omega arith) refl (omega arith) w b
run_test-Displays newline_test t s w b =
    let one =
      Displays-line (text "Line 1") _ _ refl (omega arith) refl
        (Displays-print_section (text "newline: \\n") t s refl (omega arith) w b) in
    let two = Displays-line (text "Line 2") _ _ refl (omega arith) refl one in
    Displays-print_expected (text "Three separate lines.") _ _ refl (omega arith) refl
      (Displays-line (text "Line 3") _ _ refl (omega arith) refl two)
run_test-Displays tab_test t s w b =
    one_line (text "tab: \\t") (text "A\tB\tC") (text "A   B   C")
      (text "A, B, and C should be spaced apart by tab stops.") t s
      (λ u d. Displays-body _ _ u _ tabs refl d) refl (omega arith) refl (omega arith) w b
run_test-Displays same_line_test t s w b =
    one_line (text "backspace on same line: \\b") (text "ABC" ++ (8 ∷ text "D")) (text "ABD")
      (text "ABD") t s (λ u d. Displays-body _ _ u _ one_backspace refl d) refl (omega arith) refl
      (omega arith) w b
run_test-Displays multiple_test t s w b =
    one_line (text "multiple backspaces") (text "HELLO" ++ (8 ∷ (8 ∷ (8 ∷ text "P!"))))
      (text "HEP!") (text "HEP!") t s (λ u d. Displays-body _ _ u _ three_backspaces refl d) refl
      (omega arith) refl (omega arith) w b
run_test-Displays line_start_test t s w b =
    let abc =
      Displays-line (text "ABC") _ _ refl (omega arith) refl
        (Displays-print_section (text "backspace at start of line") t s refl (omega arith) w b) in
    Displays-print_expected (text "Z should appear at the far right of the previous line.") _ _ refl
      (omega arith) refl (Displays-back _ _ abc)
run_test-Displays return_test t s w b =
    one_line (text "carriage return: \\r") (text "ABC\rZ") (text "ZBC") (text "ZBC") t s
      (λ u d. Displays-body _ _ u _ back_to_start refl d) refl (omega arith) refl (omega arith) w b
run_test-Displays color_test t s w b =
    let start = Displays-print_section (text "VGA color output") t s refl (omega arith) w b in
    let one =
      Displays-line (text "This should be light green on black.") _ _ refl (omega arith) refl
        (Displays-setcolor _ _ _ start) in
    let two =
      Displays-line (text "This should be light red on black.") _ _ refl (omega arith) refl
        (Displays-setcolor _ _ _ one) in
    let three =
      Displays-line (text "This should be white text on a blue background.") _ _ refl (omega arith)
        refl (Displays-setcolor _ _ _ two) in
    Displays-print_expected (text "Three different color styles.") _ _ refl (omega arith) refl
      (Displays-setcolor _ _ _ three)
run_test-Displays wrapping_test t s w b =
    let row =
      Displays-row (replicate 80 b'X') (replicate 80 b'X') _ _ (λ s e. refl) refl refl refl
        (Displays-print_section (text "line wrapping") t s refl (omega arith) w b) in
    Displays-print_expected (text "80 X characters should fill one row, then wrap to the next row.")
      _ _ refl (omega arith) refl (Displays-line (text "XXXXX") _ _ refl (omega arith) refl row)
run_test-Displays near_end_test t s w b =
    let row =
      Displays-row (replicate 77 b'.' ++ (9 ∷ [])) (replicate 77 b'.' ++ text "   ") _ _
        (tab_at_77 (replicate 77 b'.') refl refl) refl refl refl
        (Displays-print_section (text "tab near end of line") t s refl (omega arith) w b) in
    Displays-print_expected (text "The T should not corrupt memory. It may wrap to the next line.")
      _ _ refl (omega arith) refl (Displays-line (text "T") _ _ refl (omega arith) refl row)
