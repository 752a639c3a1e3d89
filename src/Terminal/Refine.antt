-- ===== src/Terminal/Refine.antt =====
-- The terminal implements the screen: every operation on a terminal that shows a screen.
use wig_osx.Base.{
  ℕ, zero, suc, ◌+◌, ◌-◌, ◌%◌, ◌<◌, ◌≡◌, refl, subst, ap, List, [], ◌∷◌, arith, ltb, leb, ◌==◌,
}
use wig_osx.Base.Loops.{for_range}
use wig_osx.Terminal.{
  Terminal, initialize, scroll_up, newline, carriage_return, put_visible, tab, backspace, putchar,
  write, vga_entry_color, blank_here,
}
use wig_osx.Terminal.Screen
use wig_osx.Terminal.Screen.{Screen}
use wig_osx.Terminal.Scroll.{Shows-clear, Shows-scroll}
use wig_osx.Terminal.Shows.{Shows, Shows-put_here, Shows-move, Shows-if}

module _ (t : Terminal) (s : Screen) (w : Shows t s) where
  Shows-column : (j : ℕ) → j < 80 → Shows (record t { column = j }) (record s { column = j })
  Shows-column j q = Shows-move t s t.row s.row j j w.row refl w.row_lt q w

  Shows-newline : Shows (newline t) (Screen.newline s)
  unfolding newline Screen.newline
  Shows-newline =
      let up =
        Shows-scroll (record t { column = 0 }) (record s { column = 0 })
          (Shows-column 0 (omega arith)) in
      Shows-if (leb 25 (t.row + 1)) (s.row == 24) _ _ _ _ (ground (arith, w.row, w.row_lt))
        (λ e.
          Shows-move _ _ 24 s.row (scroll_up (record t { column = 0 })).column 0 (ground (arith, e))
            up.column w.row_lt (omega arith) up)
        (λ e.
          Shows-move t s (t.row + 1) (s.row + 1) 0 0 (omega (arith, w.row)) refl
            (ground (arith, w.row_lt, e)) (omega arith) w)

  Shows-blank_here :
      (i k j l : ℕ)
      → i ≡ k
      → j ≡ l
      → k < 25
      → l < 80
      → Shows
          (blank_here (record t { row = i; column = j }))
          (Screen.blank_here (record s { row = k; column = l }))
  unfolding blank_here
  Shows-blank_here i k j l e f p q = Shows-put_here _ _ b' ' (Shows-move t s i k j l e f p q w)

  Shows-backspace : Shows (backspace t) (Screen.backspace s)
  unfolding backspace Screen.backspace
  Shows-backspace =
      Shows-if (ltb 0 t.column) (ltb 0 s.column) _ _ _ _ (ap (ltb 0) w.column)
        (λ e.
          Shows-blank_here t.row s.row (t.column - 1) (s.column - 1) w.row
            (ap (λ x. x - 1) w.column) w.row_lt (omega (arith, w.column_lt)))
        (λ e.
          Shows-if (ltb 0 t.row) (ltb 0 s.row) _ _ _ _ (ap (ltb 0) w.row)
            (λ f.
              Shows-blank_here (t.row - 1) (s.row - 1) 79 79 (ap (λ x. x - 1) w.row) refl
                (omega (arith, w.row_lt)) (omega arith))
            (λ f. w))

pub Shows-put_visible :
    (t : Terminal) (s : Screen) (c : ℕ)
    → Shows t s
    → Shows (put_visible t c) (Screen.put_visible s c)
unfolding put_visible Screen.put_visible newline
Shows-put_visible t s c w =
    let shown = Shows-put_here t s c w in
    Shows-if (leb 80 (t.column + 1)) (s.column == 79) _ _ _ _
      (ground (arith, w.column, w.column_lt)) (λ e. Shows-newline _ _ shown)
      (λ e.
        Shows-move _ _ _ s.row (t.column + 1) (s.column + 1) shown.row (ap (λ x. x + 1) w.column)
          w.row_lt (ground (arith, w.column_lt, e)) shown)

Shows-spaces :
    (n i : ℕ) (t : Terminal) (s : Screen)
    → Shows t s
    → Shows
        (for_range n i (λ k u. put_visible u b' ') t)
        (for_range n i (λ k u. Screen.put_visible u b' ') s)
unfolding for_range
Shows-spaces zero i t s w = w
Shows-spaces (suc n) i t s w =
    Shows-spaces n (suc i) (put_visible t b' ') (Screen.put_visible s b' ')
      (Shows-put_visible t s b' ' w)

pub Shows-tab : (t : Terminal) (s : Screen) → Shows t s → Shows (tab t) (Screen.tab s)
unfolding tab Screen.tab
Shows-tab t s w =
    subst (λ k. Shows (tab t) (for_range (4 - k % 4) 0 (λ i u. Screen.put_visible u b' ') s))
      w.column (Shows-spaces (4 - t.column % 4) 0 t s w)

pub Shows-putchar :
    (t : Terminal) (s : Screen) (c : ℕ) → Shows t s → Shows (putchar t c) (Screen.putchar s c)
unfolding putchar Screen.putchar carriage_return
Shows-putchar t s c w =
    Shows-if (c == 10) (c == 10) _ _ _ _ refl (λ e. Shows-newline t s w)
      (λ e.
        Shows-if (c == 13) (c == 13) _ _ _ _ refl (λ e. Shows-column t s w 0 (omega arith))
          (λ e.
            Shows-if (c == 9) (c == 9) _ _ _ _ refl (λ e. Shows-tab t s w)
              (λ e.
                Shows-if (c == 8) (c == 8) _ _ _ _ refl (λ e. Shows-backspace t s w)
                  (λ e.
                    Shows-if (c == 12) (c == 12) _ _ _ _ refl (λ e. Shows-clear t s w.color)
                      (λ e. Shows-put_visible t s c w)))))

-- A terminal that shows a screen shows, after `terminal_write` of any characters, the screen after the same
-- characters: lines that wrap at 80 columns, scroll at row 25, and obey newline, carriage return, tab, backspace
-- and form feed. The cursor stays on the screen, and the display starts at the screen's first cell.
pub write-Shows :
    (cs : List ℕ) (t : Terminal) (s : Screen) → Shows t s → Shows (write t cs) (Screen.write s cs)
unfolding write Screen.write
write-Shows [] t s w = w
write-Shows (c ∷ cs) t s w =
    write-Shows cs (putchar t c) (Screen.putchar s c) (Shows-putchar t s c w)

-- The screen after the start: blank, grey on black, the cursor in the first cell.
abbrev pub first_screen : Screen
first_screen = record { row = 0; column = 0; color = 7; cell = λ i j. (b' ', 7) }

-- After `terminal_initialize`, whatever the static variables and video memory held, the terminal shows a blank
-- screen, grey on black, with the cursor in the first cell.
pub initialize-Shows : (t : Terminal) → Shows (initialize t) first_screen
unfolding initialize vga_entry_color Screen.clear
initialize-Shows t =
    Shows-clear (record t { row = 0; column = 0; view_start = 0; color = 7 }) first_screen refl
