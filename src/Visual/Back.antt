-- ===== src/Visual/Back.antt =====
-- A backspace at the start of a row, round to the end of the row above.
use wig_osx.Base.{
  ℕ, ◌+◌, ◌-◌, ◌≤◌, ◌<◌, ◌≡◌, refl, ap, ◌∙◌, subst, true, List, [], ◌∷◌, ◌++◌, replicate, arith,
  ltb, ◌==◌, pick_then, pick_else,
}
use wig_osx.Base.Text.{text}
use wig_osx.Terminal.{Terminal, write}
use wig_osx.Terminal.Refine.{write-Shows}
use wig_osx.Terminal.Screen
use wig_osx.Terminal.Screen.{Screen, newline, show}
use wig_osx.Terminal.Shows.{Shows}
use wig_osx.Visual.Displays.{Line, AllStand, Displays, SameElsewhere, AllStand-newline}
use wig_osx.Visual.Lines.{
  text_from, text_from-append, text_from-blank, newline-row, newline-column, newline-blank,
  BlankRows, Stands, Stands-cells, Stands-newline,
}

-- The row above, with Z at its end.
abbrev above_with_z : Screen → Screen
above_with_z s =
    let end = record s { row = s.row - 1; column = 79 } in
    show (show end (s.row - 1) 79 b' ') (s.row - 1) 79 b'Z'

goes_back :
    (s : Screen)
    → s.column ≡ 0
    → 1 ≤ s.row
    → Screen.write s (8 ∷ (b'Z' ∷ (10 ∷ []))) ≡ newline (newline (above_with_z s))
unfolding Screen.write Screen.putchar Screen.backspace Screen.put_visible
goes_back s h lt =
    ap (λ w. newline (Screen.put_visible w b'Z'))
      (pick_else (ltb 0 s.column) _ _ (ground (arith, h))
        ∙ pick_then (ltb 0 s.row) _ _ (ground (arith, lt)))

abbrev abc : List ℕ
abc = text "ABC"

-- The row of ABC and of Z.
abbrev pub abc_and_z : List ℕ
abc_and_z = abc ++ (replicate 76 b' ' ++ (b'Z' ∷ []))

full_row :
    (s : Screen) → Stands s (s.row - 1) 0 abc → Stands (above_with_z s) (s.row - 1) 0 abc_and_z
unfolding text text_from
full_row s (e, b) =
    let w = above_with_z s in
    let r = s.row - 1 in
    let here : (r == r) ≡ true = ground arith in
    let start : text_from w r 0 3 ≡ abc = rw here e in
    let spaces : text_from w r 3 76 ≡ replicate 76 b' ' =
      text_from-blank w r 3 76 (λ m le lt. ground (arith, b m (omega (arith, le)))) in
    let z : text_from w r 79 1 ≡ b'Z' ∷ [] = rw here refl in
    (
      text_from-append w r 0 3 77
          ∙ ap (λ l. text_from w r 0 3 ++ l) (text_from-append w r 3 76 1)
          ∙ ap (λ l. l ++ (text_from w r 3 76 ++ text_from w r 79 1)) start
          ∙ ap (λ l. abc ++ (l ++ text_from w r 79 1)) spaces
          ∙ ap (λ l. abc ++ (replicate 76 b' ' ++ l)) z,
      λ j le lt. absurd (omega (arith, le, lt)),
    )

-- Below ABC, Z goes to the end of that row, and the cursor two rows below it.
pub Displays-back :
    (title : List ℕ) (t : Terminal)
    → Displays t (
        record { up = 1; column = 0; characters = abc }
        ∷ record { up = 2; column = 0; characters = title }
        ∷ [])
    → Displays (write t (8 ∷ (b'Z' ∷ (10 ∷ [])))) (
        record { up = 2; column = 0; characters = abc_and_z }
        ∷ record { up = 3; column = 0; characters = title }
        ∷ [])
unfolding wig_osx.Visual.Displays.all_above text
Displays-back title t d =
    let s = d.screen in
    let u : Screen = record s { row = s.row - 1 } in
    let w = above_with_z s in
    let n = newline w in
    let (le, stands, others) = d.stand in
    let (up, above, _) = others in
    let lt : w.row < 25 = omega (arith, d.shows.row_lt) in
    let row : n.row < 25 =
      ground (arith, newline-row w (omega (arith, d.shows.row_lt)), d.shows.row_lt) in
    let same : SameElsewhere u w = record { row = refl; cells = λ i j e. ground (arith, e) } in
    let heading : AllStand n (record { up = 2; column = 0; characters = title } ∷ []) =
      AllStand-newline u w (record { up = 1; column = 0; characters = title } ∷ [])
        (omega (arith, d.shows.row_lt)) same refl
        (
          omega (arith, up),
          Stands-cells u s _ (s.row - 2) 0 title (λ j. ap (λ i. s.cell i j) (omega arith)) above,
          tt,
        ) in
    let two : List Line =
      record { up = 1; column = 0; characters = abc_and_z }
      ∷ record { up = 2; column = 0; characters = title }
      ∷ [] in
    let lines : AllStand n two = (
      ground (arith, newline-row w lt),
      Stands-newline w 0 abc_and_z lt (full_row s stands),
      heading,
    ) in
    let under : BlankRows w (w.row + 1) = λ i p q j m o.
      ap (λ (c : ℕ × ℕ). c.0) (same.cells i j (ground (arith, p)))
      ∙ d.below i (omega (arith, p, le)) q j m o in
    let blank = newline-blank w lt under in
    record {
      screen = newline n;
      shows =
          subst (Shows (write t (8 ∷ (b'Z' ∷ (10 ∷ []))))) (goes_back s d.column le)
            (write-Shows (8 ∷ (b'Z' ∷ (10 ∷ []))) t s d.shows);
      column = newline-column n;
      stand =
          AllStand-newline n n two row (record { row = refl; cells = λ i j e. refl }) refl lines;
      below = newline-blank n row (λ i p q j m o. blank i (omega (arith, p)) q j m o);
    }
