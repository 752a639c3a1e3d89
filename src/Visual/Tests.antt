-- ===== src/Visual/Tests.antt =====
-- A visual test, and the suite, on a concrete terminal.
use wig_osx.Base.{refl, []}
use wig_osx.Terminal.{Terminal, initialize}
use wig_osx.Terminal.Refine.{first_screen, initialize-Shows}
use wig_osx.Visual.Displays.{Displays}
use wig_osx.Visual.Expected.{run_test, expected_lines, line_start_test, run_test-Displays}
use wig_osx.Visual.Suite.{Ends, run_vga_tests-Ends}
use wig_osx.Visual.{run_vga_tests}

-- Before the start: video memory holds anything.
abbrev unset : Terminal
unset = record { row = 30; column = 1; view_start = 7; color = 2; buffer = λ i. i; writes = [] }

run_test-Displays_example :
    Displays (run_test line_start_test (initialize unset)) (expected_lines line_start_test)
run_test-Displays_example =
    run_test-Displays line_start_test (initialize unset) first_screen (initialize-Shows unset)
      (λ i le lt j n m. refl)

run_vga_tests-Ends_example : Ends (run_vga_tests unset)
run_vga_tests-Ends_example = run_vga_tests-Ends unset
