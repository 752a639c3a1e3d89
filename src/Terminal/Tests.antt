-- ===== src/Terminal/Tests.antt =====
-- The terminal on concrete text.
use wig_osx.Base.{ℕ, ◌≡◌, refl, List, [], ◌∷◌}
use wig_osx.Terminal.{Terminal, initialize, write}
use wig_osx.Terminal.Screen
use wig_osx.Terminal.Refine.{first_screen, write-Shows, initialize-Shows}
use wig_osx.Terminal.Shows.{Shows}

-- Before the start: video memory holds anything.
abbrev unset : Terminal
unset = record { row = 9; column = 90; view_start = 123; color = 1; buffer = λ i. i; writes = [] }

-- `A`, tab, newline, `B`, backspace.
abbrev text : List ℕ
text = 65 ∷ 9 ∷ 10 ∷ 66 ∷ 8 ∷ []

write-Shows_example : Shows (write (initialize unset) text) (Screen.write first_screen text)
write-Shows_example = write-Shows text (initialize unset) first_screen (initialize-Shows unset)

-- The cursor stands at the start of the second row.
cursor_row : (Screen.write first_screen text).row ≡ 1
unfolding Screen.write Screen.putchar Screen.put_visible Screen.newline Screen.backspace Screen.tab
    wig_osx.Base.Loops.for_range
cursor_row = refl
