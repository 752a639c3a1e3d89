-- ===== src/Terminal/Screen.antt =====
-- What the terminal promises: a grid of 25 rows of 80 cells with a cursor, on which text scrolls.
use wig_osx.Base.{ℕ, ◌+◌, ◌-◌, ◌%◌, List, [], ◌∷◌, ◌&&◌, ltb, ◌==◌, if◌then◌else◌}
use wig_osx.Base.Loops.{for_range}

-- A cell holds a character and a colour.
pub record Screen : Type 0 where
  pub row : ℕ
  pub column : ℕ
  pub color : ℕ
  pub cell : ℕ → ℕ → ℕ × ℕ

abbrev pub blank : Screen → ℕ × ℕ
blank s = (b' ', s.color)

abbrev pub show : Screen → ℕ → ℕ → ℕ → Screen
show s row column c = record s {
  cell = λ i j. if row == i && column == j then (c, s.color) else s.cell i j;
}

unfoldable pub clear : Screen → Screen
clear s = record s { row = 0; column = 0; cell = λ i j. blank s }

-- All rows move up by one, and the last one is blank.
unfoldable pub scroll : Screen → Screen
scroll s = record s { cell = λ i j. if i == 24 then blank s else s.cell (i + 1) j }

unfoldable pub newline : Screen → Screen
unfolding scroll
newline s =
    if s.row == 24
    then record (scroll s) { column = 0 }
    else record s { row = s.row + 1; column = 0 }

unfoldable pub put_visible : Screen → ℕ → Screen
put_visible s c =
    let shown = show s s.row s.column c in
    if s.column == 79 then newline shown else record shown { column = s.column + 1 }

-- Spaces up to the next column that is a multiple of 4.
unfoldable pub tab : Screen → Screen
tab s = for_range (4 - s.column % 4) 0 (λ i u. put_visible u b' ') s

abbrev pub blank_here : Screen → Screen
blank_here s = show s s.row s.column b' '

-- Back one cell, round to the end of the row above, and that cell is blanked; nothing at the first cell.
unfoldable pub backspace : Screen → Screen
backspace s =
    if ltb 0 s.column
    then blank_here (record s { column = s.column - 1 })
    else if ltb 0 s.row
    then blank_here (record s { row = s.row - 1; column = 79 })
    else s

unfoldable pub putchar : Screen → ℕ → Screen
putchar s c =
    if c == 10
    then newline s
    else if c == 13
    then record s { column = 0 }
    else if c == 9
    then tab s
    else if c == 8
    then backspace s
    else if c == 12
    then clear s
    else put_visible s c

unfoldable pub write : Screen → List ℕ → Screen
write s [] = s
write s (c ∷ cs) = write (putchar s c) cs
