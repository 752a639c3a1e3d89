-- ===== src/Visual/Displays.antt =====
-- Texts that stand on the screen, and what writing does to them.
use wig_osx.Base.{
  ℕ, suc, ◌+◌, ◌-◌, ◌≤◌, ◌<◌, ◌≡◌, refl, sym, ap, ◌∙◌, subst, Bool, true, false, ◌==◌, ◌&&◌, List,
  [], ◌∷◌, ◌++◌, arith, ltb, map, length,
}
use mathlib.Core.List.{append_assoc}
use wig_osx.Base.Text.{text}
use wig_osx.Terminal.{Terminal, setcolor, putchar, write}
use wig_osx.Terminal.Refine.{write-Shows}
use wig_osx.Terminal.Screen
use wig_osx.Terminal.Screen.{Screen, newline}
use wig_osx.Terminal.Rows.{entry_at}
use wig_osx.Terminal.Shows.{Shows}
use wig_osx.Visual.Lines.{
  text_from, text_from-write, write-outside, all_visible, write-cursor, newline-row, newline-column,
  newline-above, newline-blank, BlankFrom, BlankRows, Stands, Stands-cells, Stands-newline,
}
use wig_osx.Color.{black, light_cyan}
use wig_osx.Visual.{colored, print_section, print_expected, reset_color}

-- A text, its column, and how far its row is above the cursor's.
pub record Line : Type 0 where
  pub up : ℕ
  pub column : ℕ
  pub characters : List ℕ

-- All of these texts stand on the screen, with nothing behind them in their rows.
abbrev pub AllStand : Screen → List Line → Type 0
AllStand s [] = Unit {0}
AllStand s (l ∷ ls) = (l.up ≤ s.row) × Stands s (s.row - l.up) l.column l.characters × AllStand s ls

-- The terminal shows a screen with these texts, the cursor at the start of a row, and nothing from there on.
pub record Displays (t : Terminal) (ls : List Line) : Type 0 where
  pub screen : Screen
  pub shows : Shows t screen
  pub column : screen.column ≡ 0
  pub stand : AllStand screen ls
  pub below : BlankRows screen screen.row

abbrev pub further_up : Line → Line
further_up l = record l { up = suc l.up }

-- None of the texts is on the cursor's row, and a line feed leaves them on the screen.
unfoldable pub all_above : List Line → Bool
all_above [] = true
all_above (l ∷ ls) = ltb 0 l.up && ltb l.up 24 && all_above ls

pub Shows-setcolor :
    (t : Terminal) (s : Screen) (c : ℕ) → Shows t s → Shows (setcolor t c) (record s { color = c })
unfolding setcolor entry_at wig_osx.Terminal.get_buffer_index
Shows-setcolor t s c w = record {
  row = w.row;
  column = w.column;
  color = refl;
  row_lt = w.row_lt;
  column_lt = w.column_lt;
  start_lt = w.start_lt;
  display = w.display;
  cells = w.cells;
}

AllStand-color :
    (s : Screen) (c : ℕ) (ls : List Line) → AllStand s ls → AllStand (record s { color = c }) ls
AllStand-color s c [] h = h
AllStand-color s c (l ∷ ls) (le, e, h) =
    (le, Stands-cells _ s _ _ _ _ (λ j. refl) e, AllStand-color s c ls h)

pub Displays-setcolor :
    (t : Terminal) (c : ℕ) (ls : List Line) → Displays t ls → Displays (setcolor t c) ls
Displays-setcolor t c ls d = record {
  screen = record d.screen { color = c };
  shows = Shows-setcolor t d.screen c d.shows;
  column = d.column;
  stand = AllStand-color d.screen c ls d.stand;
  below = d.below;
}

-- `u` is `s` with other cells in the cursor's row only.
pub record SameElsewhere (s u : Screen) : Type 0 where
  pub row : u.row ≡ s.row
  pub cells : (i j : ℕ) → (s.row == i) ≡ false → u.cell i j ≡ s.cell i j

pub SameElsewhere-blank :
    (s u : Screen) → SameElsewhere s u → BlankRows s s.row → BlankRows u (u.row + 1)
SameElsewhere-blank s u same b i le lt j n m =
    ap (λ (p : ℕ × ℕ). p.0) (same.cells i j (ground (arith, le, same.row)))
    ∙ b i (omega (arith, le, same.row)) lt j n m

pub AllStand-newline :
    (s u : Screen) (ls : List Line)
    → s.row < 25
    → SameElsewhere s u
    → all_above ls ≡ true
    → AllStand s ls
    → AllStand (newline u) (map further_up ls)
unfolding all_above
AllStand-newline s u [] h same a st = tt
AllStand-newline s u (l ∷ ls) h same a (le, e, st) = (
  ground (arith, newline-row u (omega (arith, h, same.row)), same.row, le, a),
  Stands-cells _ s _ _ _ _
      (λ j.
        newline-above u l.up j (omega (arith, h, same.row)) (omega (arith, le, same.row))
          (ground (arith, a))
        ∙ ap (λ r. u.cell (r - l.up) j) same.row
        ∙ same.cells (s.row - l.up) j (ground (arith, a, le)))
      e,
  AllStand-newline s u ls h same (ground (arith, a)) st,
)

-- After a line feed the text of the cursor's row is one row above the cursor.
pub Displays-newline :
    (t : Terminal) (u : Screen) (ls : List Line) (cs : List ℕ)
    → Shows t (newline u)
    → u.row < 25
    → AllStand (newline u) ls
    → Stands u u.row 0 cs
    → BlankRows u (u.row + 1)
    → Displays t (record { up = 1; column = 0; characters = cs } ∷ ls)
Displays-newline t u ls cs w h st e b = record {
  screen = newline u;
  shows = w;
  column = newline-column u;
  stand = (ground (arith, newline-row u h), Stands-newline u 0 cs h e, st);
  below = newline-blank u h b;
}

pub write-append :
    (cs ds : List ℕ) (s : Screen) → Screen.write s (cs ++ ds) ≡ Screen.write (Screen.write s cs) ds
unfolding Screen.write
write-append [] ds s = refl
write-append (c ∷ cs) ds s = write-append cs ds (Screen.putchar s c)

-- A line of visible characters.
pub Displays-line :
    (cs : List ℕ) (t : Terminal) (ls : List Line)
    → all_visible cs ≡ true
    → length cs ≤ 79
    → all_above ls ≡ true
    → Displays t ls
    → Displays
        (write t (cs ++ (10 ∷ [])))
        (record { up = 1; column = 0; characters = cs } ∷ map further_up ls)
unfolding Screen.write Screen.putchar
Displays-line cs t ls v h a d =
    let s = d.screen in
    let fits : s.column + length cs ≤ 79 = omega (arith, h, d.column) in
    let (row, _) = write-cursor cs s v fits in
    let same : SameElsewhere s (Screen.write s cs) = record {
      row = row;
      cells = λ i j e. write-outside cs s i j v fits (ground (arith, e));
    } in
    let rest : BlankFrom (Screen.write s cs) s.row (0 + length cs) = λ j le lt.
      ap (λ (p : ℕ × ℕ). p.0) (write-outside cs s s.row j v fits (ground (arith, le, d.column)))
      ∙ d.below s.row (omega arith) d.shows.row_lt j (omega arith) lt in
    Displays-newline _ (Screen.write s cs) (map further_up ls) cs
      (subst (Shows (write t (cs ++ (10 ∷ [])))) (write-append cs (10 ∷ []) s)
        (write-Shows (cs ++ (10 ∷ [])) t s d.shows))
      (omega (arith, row, d.shows.row_lt))
      (AllStand-newline s (Screen.write s cs) ls d.shows.row_lt same a d.stand)
      (subst (λ i. Stands (Screen.write s cs) i 0 cs) (sym row)
        (
          ap (λ j. text_from (Screen.write s cs) s.row j (length cs)) (sym d.column)
              ∙ text_from-write cs s v fits,
          rest,
        ))
      (SameElsewhere-blank s (Screen.write s cs) same d.below)

pub write_then : (cs ds : List ℕ) (t : Terminal) → write t (cs ++ ds) ≡ write (write t cs) ds
unfolding write
write_then [] ds t = refl
write_then (c ∷ cs) ds t = write_then cs ds (putchar t c)

abbrev pub heading : List ℕ → Line
heading title = record { up = 1; column = 0; characters = text "== " ++ (title ++ text " ==") }

-- A heading, on a screen with nothing behind the cursor's row.
pub Displays-print_section :
    (title : List ℕ) (t : Terminal) (s : Screen)
    → all_visible (text "== " ++ (title ++ text " ==")) ≡ true
    → length (text "== " ++ (title ++ text " ==")) ≤ 79
    → Shows t s
    → BlankRows s (s.row + 1)
    → Displays (print_section title t) (heading title ∷ [])
unfolding print_section reset_color Screen.write Screen.putchar text all_above
Displays-print_section title t s v h w b =
    let start : Displays (write t (text "\n")) [] = record {
      screen = newline s;
      shows = write-Shows (text "\n") t s w;
      column = newline-column s;
      stand = tt;
      below = newline-blank s w.row_lt b;
    } in
    let u : Terminal = colored light_cyan black (write t (text "\n")) in
    let whole =
      Displays-line (text "== " ++ (title ++ text " ==")) u [] v h refl
        (Displays-setcolor _ _ [] start) in
    Displays-setcolor _ _ _ (
      subst (λ u. Displays u (heading title ∷ []))
        (ap (λ cs. write u (text "== " ++ cs)) (append_assoc title (text " ==") (10 ∷ []))
          ∙ write_then (text "== ") (title ++ text " ==\n") u
          ∙ write_then title (text " ==\n") _)
        whole)

abbrev pub expectation : List ℕ → Line
expectation line = record { up = 1; column = 0; characters = text "Expected: " ++ line }

-- The expectation stands below what was displayed.
pub Displays-print_expected :
    (line : List ℕ) (t : Terminal) (ls : List Line)
    → all_visible line ≡ true
    → length line ≤ 69
    → all_above ls ≡ true
    → Displays t ls
    → Displays (print_expected line t) (expectation line ∷ map further_up ls)
unfolding print_expected reset_color text all_visible
Displays-print_expected line t ls v h a d =
    let start = Displays-setcolor t _ ls d in
    let whole = Displays-line (text "Expected: " ++ line) _ ls v (omega (arith, h)) a start in
    Displays-setcolor _ _ _ (
      subst (λ u. Displays u (expectation line ∷ map further_up ls))
        (write_then (text "Expected: " ++ line) (10 ∷ []) _
          ∙ ap (λ u. write u (10 ∷ [])) (write_then (text "Expected: ") line _))
        whole)

abbrev pub Left : List ℕ → List ℕ → Screen → Type 0
Left body shown s =
    SameElsewhere s (Screen.write s body) × Stands (Screen.write s body) s.row 0 shown

-- What a body of characters leaves on the screen, wherever the cursor's row is, if that row is blank.
abbrev pub Leaves : List ℕ → List ℕ → Type 0
Leaves body shown = (s : Screen) → BlankFrom s s.row 0 → Left body shown (record s { column = 0 })

-- A line with control characters.
pub Displays-body :
    (body shown : List ℕ) (t : Terminal) (ls : List Line)
    → Leaves body shown
    → all_above ls ≡ true
    → Displays t ls
    → Displays
        (write t (body ++ (10 ∷ [])))
        (record { up = 1; column = 0; characters = shown } ∷ map further_up ls)
unfolding Screen.write Screen.putchar
Displays-body body shown t ls leaves a d =
    let s = d.screen in
    let (same, st) =
      subst (λ c. Left body shown (record s { column = c })) (sym d.column)
        (leaves s (d.below s.row (omega arith) d.shows.row_lt)) in
    Displays-newline _ (Screen.write s body) (map further_up ls) shown
      (subst (Shows (write t (body ++ (10 ∷ [])))) (write-append body (10 ∷ []) s)
        (write-Shows (body ++ (10 ∷ [])) t s d.shows))
      (omega (arith, same.row, d.shows.row_lt))
      (AllStand-newline s (Screen.write s body) ls d.shows.row_lt same a d.stand)
      (subst (λ i. Stands (Screen.write s body) i 0 shown) (sym same.row) st)
      (SameElsewhere-blank s (Screen.write s body) same d.below)
