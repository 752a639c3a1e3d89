-- ===== src/Visual/Suite.antt =====
-- The suite of visual tests as a whole.
use wig_osx.Base.{ℕ, ◌+◌, ◌≡◌, refl, List, [], ◌∷◌, arith}
use wig_osx.Base.Text.{text}
use wig_osx.Terminal.{Terminal, initialize, setcolor, write}
use wig_osx.Terminal.Refine.{first_screen, initialize-Shows, write-Shows}
use wig_osx.Terminal.Scroll.{Shows-clear}
use wig_osx.Terminal.Screen
use wig_osx.Terminal.Screen.{Screen}
use wig_osx.Terminal.Shows.{Shows}
use wig_osx.Visual.Displays.{Line, Displays, Displays-line, Displays-setcolor, Shows-setcolor}
use wig_osx.Visual.Expected.{
  VisualTest, run_test, expected_lines, run_test-Displays, writestring_test, putchar_test,
  write_test, newline_test, tab_test, same_line_test, multiple_test, line_start_test, return_test,
  color_test, wrapping_test, near_end_test,
}
use wig_osx.Visual.Lines.{text_from, all_visible, BlankRows}
use wig_osx.Visual.{
  print_section, reset_color, test_terminal_clear_function, test_form_feed, run_vga_tests,
}

-- A terminal that shows some screen.
record Works (t : Terminal) : Type 0 where
  screen : Screen
  shows : Shows t screen

-- A terminal that shows a screen with nothing below the cursor's row.
record Open (t : Terminal) : Type 0 where
  works : Works t
  below : BlankRows works.screen (works.screen.row + 1)

Displays-Open : (t : Terminal) (ls : List Line) → Displays t ls → Open t
Displays-Open t ls d = record {
  works = record { screen = d.screen; shows = d.shows };
  below = λ i le lt. d.below i (omega (arith, le)) lt;
}

test-Open : (k : VisualTest) (t : Terminal) → Open t → Open (run_test k t)
test-Open k t o =
    Displays-Open (run_test k t) (expected_lines k)
      (run_test-Displays k t o.works.screen o.works.shows o.below)

write-Works : (cs : List ℕ) (t : Terminal) → Works t → Works (write t cs)
write-Works cs t w = record { screen = _; shows = write-Shows cs t w.screen w.shows }

color-Works : (t : Terminal) (c : ℕ) → Works t → Works (setcolor t c)
color-Works t c w = record { screen = _; shows = Shows-setcolor t w.screen c w.shows }

section-Works : (title : List ℕ) (t : Terminal) → Works t → Works (print_section title t)
unfolding print_section reset_color
section-Works title t w =
    let start = color-Works _ _ (write-Works _ t w) in
    color-Works _ _ (write-Works _ _ (write-Works _ _ (write-Works _ _ start)))

clear_test-Works : (t : Terminal) → Works t → Works (test_terminal_clear_function t)
unfolding test_terminal_clear_function
clear_test-Works t w =
    let before = write-Works _ _ (section-Works (text "terminal_clear") t w) in
    write-Works _ _ (record {
      screen = Screen.clear before.screen;
      shows = Shows-clear _ before.screen before.shows.color;
    })

-- What stands on the screen after a form feed and the last lines.
pub record Ends (t : Terminal) : Type 0 where
  pub screen : Screen
  pub shows : Shows t screen
  pub row : screen.row ≡ 3
  pub column : screen.column ≡ 0
  pub first : text_from screen 0 0 43 ≡ text "Form feed worked if the screen was cleared."
  pub last : text_from screen 2 0 30 ≡ text "All VGA visual tests finished."

form_feed-Ends :
    (t : Terminal)
    → Works t
    → Ends (write (test_form_feed t) (text "\nAll VGA visual tests finished.\n"))
unfolding test_form_feed Screen.write Screen.putchar Screen.put_visible Screen.newline Screen.clear
    text text_from
form_feed-Ends t w =
    let before = write-Works _ _ (section-Works (text "form feed: \\f") t w) in
    let cleared = write-Shows (12 ∷ []) _ before.screen before.shows in
    let shown = write-Shows (text "Form feed worked if the screen was cleared.\n") _ _ cleared in
    record {
      screen = _;
      shows = write-Shows (text "\nAll VGA visual tests finished.\n") _ _ shown;
      row = refl;
      column = refl;
      first = refl;
      last = refl;
    }

-- Whatever the static variables and video memory held, the suite of visual tests ends with the cursor at the start
-- of the fourth row of the screen that the terminal shows, the line after the form feed in the first row, and the
-- suite's last line in the third.
pub run_vga_tests-Ends : (t : Terminal) → Ends (run_vga_tests t)
unfolding run_vga_tests reset_color text all_visible wig_osx.Visual.Displays.all_above
run_vga_tests-Ends t =
    let start : Displays (initialize t) [] = record {
      screen = first_screen;
      shows = initialize-Shows t;
      column = refl;
      stand = tt;
      below = λ i le lt j n m. refl;
    } in
    let title =
      Displays-line (text "wigOSX Stage 2 VGA Test Suite") _ [] refl (omega arith) refl
        (Displays-setcolor _ _ _ start) in
    let intro = Displays-Open _ _ (
      Displays-line (text "These are visual tests. Read the Expected lines.") _ _ refl (omega arith)
        refl (Displays-setcolor _ _ _ title)) in
    let writes =
      test-Open write_test _ (test-Open putchar_test _ (test-Open writestring_test _ intro)) in
    let lines =
      test-Open same_line_test _ (test-Open tab_test _ (test-Open newline_test _ writes)) in
    let moves =
      test-Open return_test _ (test-Open line_start_test _ (test-Open multiple_test _ lines)) in
    let edges =
      test-Open near_end_test _ (test-Open wrapping_test _ (test-Open color_test _ moves)) in
    form_feed-Ends _ (clear_test-Works _ edges.works)
