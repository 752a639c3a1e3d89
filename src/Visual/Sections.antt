-- ===== src/Visual/Sections.antt =====
-- A heading, a line, and the line that says what is expected.
use wig_osx.Base.{ℕ, ◌+◌, ◌≤◌, ◌≡◌, refl, true, List, [], ◌∷◌, ◌++◌, arith, ◌==◌, length}
use wig_osx.Base.Loops.{for_range}
use wig_osx.Base.Text.{text}
use wig_osx.Terminal.{Terminal, write}
use wig_osx.Terminal.Screen
use wig_osx.Terminal.Screen.{Screen}
use wig_osx.Terminal.Shows.{Shows}
use wig_osx.Visual.Displays.{
  Line, AllStand, Displays, Leaves, heading, further_up, Displays-body, Displays-line,
  Displays-setcolor, Displays-print_section, Displays-print_expected, write_then,
}
use wig_osx.Visual.Lines.{text_from, all_visible, BlankRows}
use wig_osx.Visual.{
  reset_color, print_expected, print_section, test_terminal_writestring, test_terminal_putchar,
  test_terminal_write, test_newline, test_tab, test_backspace_same_line,
  test_backspace_multiple_chars, test_backspace_at_line_start, test_carriage_return,
  test_color_output, test_line_wrapping, test_tab_near_end_of_line,
}

abbrev pub line_at : ℕ → List ℕ → Line
line_at up cs = record { up = up; column = 0; characters = cs }

pub tabs : Leaves (text "A\tB\tC") (text "A   B   C")
unfolding Screen.write Screen.putchar Screen.put_visible Screen.tab for_range text text_from
tabs s b =
    let e : (s.row == s.row) ≡ true = ground arith in
    (
      record { row = refl; cells = λ i j ne. rw ne refl },
      (rw e refl, λ j le lt. ground (arith, le, b j)),
    )

pub one_backspace : Leaves (text "ABC" ++ (8 ∷ text "D")) (text "ABD")
unfolding Screen.write Screen.putchar Screen.put_visible Screen.backspace text text_from
one_backspace s b =
    let e : (s.row == s.row) ≡ true = ground arith in
    (
      record { row = refl; cells = λ i j ne. rw ne refl },
      (rw e refl, λ j le lt. ground (arith, le, b j)),
    )

pub three_backspaces : Leaves (text "HELLO" ++ (8 ∷ (8 ∷ (8 ∷ text "P!")))) (text "HEP!")
unfolding Screen.write Screen.putchar Screen.put_visible Screen.backspace text text_from
three_backspaces s b =
    let e : (s.row == s.row) ≡ true = ground arith in
    (
      record { row = refl; cells = λ i j ne. rw ne refl },
      (rw e refl, λ j le lt. ground (arith, le, b j)),
    )

pub back_to_start : Leaves (text "ABC\rZ") (text "ZBC")
unfolding Screen.write Screen.putchar Screen.put_visible text text_from
back_to_start s b =
    let e : (s.row == s.row) ≡ true = ground arith in
    (
      record { row = refl; cells = λ i j ne. rw ne refl },
      (rw e refl, λ j le lt. ground (arith, le, b j)),
    )

-- A test whose output is one line.
pub one_line :
    (title body shown line : List ℕ) (t : Terminal) (s : Screen)
    → ((u : Terminal)
        → Displays u (heading title ∷ [])
        → Displays
            (write u (body ++ (10 ∷ [])))
            (line_at 1 shown ∷ further_up (heading title) ∷ []))
    → all_visible (text "== " ++ (title ++ text " ==")) ≡ true
    → length (text "== " ++ (title ++ text " ==")) ≤ 79
    → all_visible line ≡ true
    → length line ≤ 69
    → Shows t s
    → BlankRows s (s.row + 1)
    → Displays (print_expected line (write (print_section title t) (body ++ (10 ∷ [])))) (
        line_at 1 (text "Expected: " ++ line)
        ∷ line_at 2 shown
        ∷ further_up (further_up (heading title))
        ∷ [])
unfolding wig_osx.Visual.Displays.all_above
one_line title body shown line t s leaves vt ht v h w b =
    Displays-print_expected line _ _ v h refl
      (leaves (print_section title t) (Displays-print_section title t s vt ht w b))

-- One line of visible characters.
pub plain_line :
    (title shown line : List ℕ) (t : Terminal) (s : Screen)
    → all_visible shown ≡ true
    → length shown ≤ 79
    → all_visible (text "== " ++ (title ++ text " ==")) ≡ true
    → length (text "== " ++ (title ++ text " ==")) ≤ 79
    → all_visible line ≡ true
    → length line ≤ 69
    → Shows t s
    → BlankRows s (s.row + 1)
    → Displays (print_expected line (write (print_section title t) (shown ++ (10 ∷ [])))) (
        line_at 1 (text "Expected: " ++ line)
        ∷ line_at 2 shown
        ∷ further_up (further_up (heading title))
        ∷ [])
unfolding wig_osx.Visual.Displays.all_above
plain_line title shown line t s vs hs =
    one_line title shown shown line t s (λ u d. Displays-line shown u _ vs hs refl d)
