-- ===== src/Visual/Rows.antt =====
-- Rows that are filled to their end, where the terminal goes on in the next row.
use wig_osx.Base.{
  ℕ, suc, ◌+◌, ◌-◌, ◌%◌, ◌<◌, ◌≡◌, refl, sym, ap, ◌∙◌, subst, true, ◌&&◌, List, [], ◌∷◌, ◌++◌,
  arith, ◌==◌, if◌then◌else◌, pick_then, pick_else, map, length,
}
use wig_osx.Base.Loops.{for_range}
use wig_osx.Base.Text.{text}
use wig_osx.Terminal.{Terminal, write}
use wig_osx.Terminal.Refine.{write-Shows}
use wig_osx.Terminal.Screen
use wig_osx.Terminal.Screen.{Screen, newline}
use wig_osx.Terminal.Shows.{Shows}
use wig_osx.Visual.Displays.{
  Line, Displays, further_up, all_above, SameElsewhere, SameElsewhere-blank, AllStand-newline,
  Displays-newline, write-append,
}
use wig_osx.Visual.Lines.{text_from, is_visible, all_visible, putchar-visible, write-cursor}

-- `w` is `s` after these characters were shown from its cursor on, but for the cursor's column.
record Shown (s w : Screen) (cs : List ℕ) : Type 0 where
  same : SameElsewhere s w
  before : (j : ℕ) → j < s.column → w.cell s.row j ≡ s.cell s.row j
  characters : text_from w s.row s.column (length cs) ≡ cs

-- Characters up to the end of the row, and a line feed.
record Fills (s : Screen) (cs : List ℕ) : Type 0 where
  filled : Screen
  goes_on : Screen.write s cs ≡ newline filled
  shown : Shown s filled cs

abbrev at_end : Screen → ℕ → Screen
at_end s c = record s {
  cell = λ i j. if s.row == i && s.column == j then (c, s.color) else s.cell i j;
}

putchar-at_end :
    (s : Screen) (c : ℕ)
    → is_visible c ≡ true
    → s.column ≡ 79
    → Screen.putchar s c ≡ newline (at_end s c)
unfolding Screen.putchar Screen.put_visible
putchar-at_end s c v h = ground (arith, v, h)

Shown-at_end : (s : Screen) (c : ℕ) → s.column ≡ 79 → Shown s (at_end s c) (c ∷ [])
unfolding text_from
Shown-at_end s c h = record {
  same = record {
    row = refl;
    cells = λ i j e. pick_else (s.row == i && s.column == j) _ _ (ground (arith, e));
  };
  before = λ j lt. pick_else (s.row == s.row && s.column == j) _ _ (ground (arith, lt));
  characters =
      ap (λ (p : ℕ × ℕ). p.0 ∷ [])
        (pick_then (s.row == s.row && s.column == s.column) _ _ (ground arith));
}

Shown-next :
    (s u : Screen) (c : ℕ) (cs : List ℕ)
    → Shown (record (at_end s c) { column = s.column + 1 }) u cs
    → Shown s u (c ∷ cs)
unfolding text_from
Shown-next s u c cs h =
    let first : (u.cell s.row s.column).0 ≡ c =
      ap (λ (p : ℕ × ℕ). p.0)
        (h.before s.column (omega arith)
          ∙ pick_then (s.row == s.row && s.column == s.column) _ _ (ground arith)) in
    let rest : text_from u s.row (suc s.column) (length cs) ≡ cs =
      ap (λ j. text_from u s.row j (length cs)) (omega arith) ∙ h.characters in
    record {
      same = record {
        row = h.same.row;
        cells = λ i j e.
            h.same.cells i j e ∙ pick_else (s.row == i && s.column == j) _ _ (ground (arith, e));
      };
      before = λ j lt.
          h.before j (omega (arith, lt))
          ∙ pick_else (s.row == s.row && s.column == j) _ _ (ground (arith, lt));
      characters = rw (first, rest) refl;
    }

row-Fills :
    (cs : List ℕ) (s : Screen)
    → all_visible cs ≡ true
    → s.column + length cs ≡ 80
    → s.column < 80
    → Fills s cs
unfolding Screen.write all_visible
row-Fills [] s v h lt = absurd (omega (arith, h, lt))
row-Fills (c ∷ []) s v h lt =
    let e = putchar-at_end s c (ground (arith, v)) (omega (arith, h)) in
    record { filled = at_end s c; goes_on = e; shown = Shown-at_end s c (omega (arith, h)) }
row-Fills (c ∷ (d ∷ cs)) s v h lt =
    let w : Screen = record (at_end s c) { column = s.column + 1 } in
    let e : Screen.putchar s c ≡ w = putchar-visible s c (ground (arith, v)) (omega (arith, h)) in
    let f = row-Fills (d ∷ cs) w (ground (arith, v)) (omega (arith, h)) (omega (arith, h)) in
    record {
      filled = f.filled;
      goes_on = ap (λ t. Screen.write t (d ∷ cs)) e ∙ f.goes_on;
      shown = Shown-next s f.filled c (d ∷ cs) f.shown;
    }

-- What is written fills the row: the terminal goes on in the next one.
pub Displays-row :
    (body cs : List ℕ) (t : Terminal) (ls : List Line)
    → ((s : Screen) → s.column ≡ 0 → Screen.write s body ≡ Screen.write s cs)
    → all_visible cs ≡ true
    → length cs ≡ 80
    → all_above ls ≡ true
    → Displays t ls
    → Displays (write t body) (record { up = 1; column = 0; characters = cs } ∷ map further_up ls)
Displays-row body cs t ls same v h a d =
    let s = d.screen in
    let f = row-Fills cs s v (omega (arith, h, d.column)) (omega (arith, d.column)) in
    let w = f.filled in
    Displays-newline (write t body) w (map further_up ls) cs
      (subst (Shows (write t body)) (same s d.column ∙ f.goes_on) (write-Shows body t s d.shows))
      (omega (arith, f.shown.same.row, d.shows.row_lt))
      (AllStand-newline s w ls d.shows.row_lt f.shown.same a d.stand)
      (
        ap (λ i. text_from w i 0 (length cs)) f.shown.same.row
            ∙ ap (λ j. text_from w s.row j (length cs)) (sym d.column)
            ∙ f.shown.characters,
        λ j le lt. absurd (omega (arith, le, lt, h)),
      )
      (SameElsewhere-blank s w f.shown.same d.below)

-- A tab at column 77 shows three spaces.
pub tab_at_77 :
    (cs : List ℕ)
    → all_visible cs ≡ true
    → length cs ≡ 77
    → (s : Screen) → s.column ≡ 0
    → Screen.write s (cs ++ (9 ∷ [])) ≡ Screen.write s (cs ++ text "   ")
unfolding Screen.write Screen.putchar Screen.tab for_range text
tab_at_77 cs v h s e =
    let (_, k) = write-cursor cs s v (omega (arith, h, e)) in
    let sum : s.column + length cs ≡ 77 = omega (arith, h, e) in
    write-append cs (9 ∷ []) s
    ∙ ap (λ c. for_range (4 - c % 4) 0 (λ i u. Screen.put_visible u b' ') (Screen.write s cs))
        (k ∙ sum)
    ∙ sym (write-append cs (text "   ") s)
