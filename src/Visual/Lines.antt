-- ===== src/Visual/Lines.antt =====
-- Lines of text on the screen.
use wig_osx.Base.{
  ℕ, zero, suc, ◌+◌, ◌-◌, ◌≤◌, ◌<◌, ◌≡◌, refl, ap, ◌∙◌, inl, inr, Bool, true, false, not, ◌||◌,
  ◌&&◌, List, [], ◌∷◌, ◌++◌, replicate, arith, leb, ltb, ◌==◌, if◌then◌else◌, pick_then, pick_else,
  Bool-cases, length,
}
use wig_osx.Terminal.Screen.{Screen, scroll, newline, put_visible, putchar, write}

-- The characters of a row, from a column on.
unfoldable pub text_from : Screen → ℕ → ℕ → ℕ → List ℕ
text_from s i j zero = []
text_from s i j (suc n) = (s.cell i j).0 ∷ text_from s i (suc j) n

pub text_from-cells :
    (s t : Screen) (i k j n : ℕ)
    → ((j : ℕ) → s.cell i j ≡ t.cell k j)
    → text_from s i j n ≡ text_from t k j n
unfolding text_from
text_from-cells s t i k j zero h = refl
text_from-cells s t i k j (suc n) h = rw (h j, text_from-cells s t i k (suc j) n h) refl

-- Characters that are shown.
abbrev pub is_visible : ℕ → Bool
is_visible c = not (c == 10 || (c == 13 || (c == 9 || (c == 8 || c == 12))))

unfoldable pub all_visible : List ℕ → Bool
all_visible [] = true
all_visible (c ∷ cs) = is_visible c && all_visible cs

pub putchar-visible :
    (s : Screen) (c : ℕ)
    → is_visible c ≡ true
    → s.column < 79
    → putchar s c ≡ record s {
      column = s.column + 1;
      cell = λ i j. if s.row == i && s.column == j then (c, s.color) else s.cell i j;
    }
unfolding putchar put_visible
putchar-visible s c v h = ground (arith, v, h)

-- The cells of other rows, and those before and behind what is written, stay.
pub write-outside :
    (cs : List ℕ) (s : Screen) (i j : ℕ)
    → all_visible cs ≡ true
    → s.column + length cs ≤ 79
    → (s.row == i && (leb s.column j && ltb j (s.column + length cs))) ≡ false
    → (write s cs).cell i j ≡ s.cell i j
unfolding write all_visible
write-outside [] s i j v h out = refl
write-outside (c ∷ cs) s i j v h out =
    ap (λ t. (write t cs).cell i j) (putchar-visible s c (ground (arith, v)) (omega (arith, h)))
    ∙ write-outside cs _ i j (ground (arith, v)) (omega (arith, h)) (ground (arith, out))
    ∙ pick_else (s.row == i && s.column == j) _ _ (ground (arith, out))

pub write-cursor :
    (cs : List ℕ) (s : Screen)
    → all_visible cs ≡ true
    → s.column + length cs ≤ 79
    → ((write s cs).row ≡ s.row) × ((write s cs).column ≡ s.column + length cs)
unfolding write all_visible
write-cursor [] s v h = (refl, omega arith)
write-cursor (c ∷ cs) s v h =
    let e = putchar-visible s c (ground (arith, v)) (omega (arith, h)) in
    let sum : (n : ℕ) → s.column + 1 + n ≡ s.column + suc n = λ n. omega arith in
    let (r, k) = write-cursor cs _ (ground (arith, v)) (omega (arith, h)) in
    (ap (λ t. (write t cs).row) e ∙ r, ap (λ t. (write t cs).column) e ∙ k ∙ omega arith)

-- What is written is what stands there.
pub text_from-write :
    (cs : List ℕ) (s : Screen)
    → all_visible cs ≡ true
    → s.column + length cs ≤ 79
    → text_from (write s cs) s.row s.column (length cs) ≡ cs
unfolding write all_visible text_from
text_from-write [] s v h = refl
text_from-write (c ∷ cs) s v h =
    let e = putchar-visible s c (ground (arith, v)) (omega (arith, h)) in
    let w : Screen = record s {
      column = s.column + 1;
      cell = λ i j. if s.row == i && s.column == j then (c, s.color) else s.cell i j;
    } in
    let first : (write w cs).cell s.row s.column ≡ (c, s.color) =
      write-outside cs w s.row s.column (ground (arith, v)) (omega (arith, h)) (ground arith)
      ∙ pick_then (s.row == s.row && s.column == s.column) _ _ (ground arith) in
    let rest : text_from (write w cs) s.row (suc s.column) (length cs) ≡ cs =
      ap (λ j. text_from (write w cs) s.row j (length cs)) (omega arith)
      ∙ text_from-write cs w (ground (arith, v)) (omega (arith, h)) in
    ap
      (λ t.
        ((write t cs).cell s.row s.column).0
        ∷ text_from (write t cs) s.row (suc s.column) (length cs))
      e
    ∙ rw (first, rest) refl

-- The cursor is at the start of a row, after a line feed, and what stood above it stands one row further up.
pub newline-row :
    (s : Screen) → s.row < 25 → (newline s).row ≡ (if s.row == 24 then 24 else s.row + 1)
unfolding newline scroll
newline-row s h = ground (arith, h)

pub newline-column : (s : Screen) → (newline s).column ≡ 0
unfolding newline scroll
newline-column s = ground arith

pub newline-above :
    (s : Screen) (k j : ℕ)
    → s.row < 25
    → k ≤ s.row
    → k < 24
    → (newline s).cell ((newline s).row - suc k) j ≡ s.cell (s.row - k) j
unfolding newline scroll
newline-above s k j h le lt = elim (Bool-cases (s.row == 24)) [
  | inl e ↦
      ap (λ (t : Screen). t.cell (t.row - suc k) j) (pick_then (s.row == 24) _ _ e)
      ∙ pick_else (s.row - suc k == 24) _ _ (ground (arith, e))
      ∙ ap (λ i. s.cell i j) (ground (arith, e, lt))
  | inr e ↦
      ap (λ (t : Screen). t.cell (t.row - suc k) j) (pick_else (s.row == 24) _ _ e)
      ∙ ap (λ i. s.cell i j) (omega (arith, le))
]

-- The cells of a row from a column on are blank.
abbrev pub BlankFrom : Screen → ℕ → ℕ → Type 0
BlankFrom s i n = (j : ℕ) → n ≤ j → j < 80 → (s.cell i j).0 ≡ b' '

-- The rows from one on are blank.
abbrev pub BlankRows : Screen → ℕ → Type 0
BlankRows s r = (i : ℕ) → r ≤ i → i < 25 → BlankFrom s i 0

-- A line feed goes to a blank row if the rows behind the cursor's are blank.
pub newline-blank :
    (s : Screen) → s.row < 25 → BlankRows s (s.row + 1) → BlankRows (newline s) (newline s).row
unfolding newline scroll
newline-blank s h b i le lt j n m = elim (Bool-cases (s.row == 24)) [
  | inl e ↦
      let last : i ≡ 24 = ground (arith, e, le) in
      ap (λ (t : Screen). (t.cell i j).0) (pick_then (s.row == 24) _ _ e)
      ∙ ap (λ (p : ℕ × ℕ). p.0) (pick_then (i == 24) _ _ (ground (arith, last)))
  | inr e ↦
      ap (λ (t : Screen). (t.cell i j).0) (pick_else (s.row == 24) _ _ e)
      ∙ b i (ground (arith, e, le)) lt j n m
]

-- A text stands in a row, and the rest of the row behind it is blank.
abbrev pub Stands : Screen → ℕ → ℕ → List ℕ → Type 0
Stands s i j cs = (text_from s i j (length cs) ≡ cs) × BlankFrom s i (j + length cs)

pub Stands-cells :
    (s t : Screen) (i k j : ℕ) (cs : List ℕ)
    → ((j : ℕ) → s.cell i j ≡ t.cell k j)
    → Stands t k j cs
    → Stands s i j cs
Stands-cells s t i k j cs h (e, b) = (
  text_from-cells s t i k j (length cs) h ∙ e,
  λ m le lt. ap (λ (p : ℕ × ℕ). p.0) (h m) ∙ b m le lt,
)

-- The text of the cursor's row stands above the cursor after a line feed.
pub Stands-newline :
    (s : Screen) (j : ℕ) (cs : List ℕ)
    → s.row < 25
    → Stands s s.row j cs
    → Stands (newline s) ((newline s).row - 1) j cs
Stands-newline s j cs h st =
    Stands-cells (newline s) s _ s.row j cs
      (λ j. newline-above s 0 j h (omega arith) (omega arith) ∙ ap (λ i. s.cell i j) (omega arith))
      st

pub text_from-append :
    (s : Screen) (i j m n : ℕ)
    → text_from s i j (m + n) ≡ text_from s i j m ++ text_from s i (j + m) n
unfolding text_from
text_from-append s i j zero n =
    ap (λ k. text_from s i j k) {x = 0 + n} {y = n} (omega arith)
    ∙ ap (λ k. text_from s i k n) {x = j} {y = j + 0} (omega arith)
text_from-append s i j (suc m) n =
    ap (λ k. text_from s i j k) {x = suc m + n} {y = suc (m + n)} (omega arith)
    ∙ ap (λ l. (s.cell i j).0 ∷ l)
        (text_from-append s i (suc j) m n
          ∙ ap (λ k. text_from s i (suc j) m ++ text_from s i k n) {x = suc j + m} {y = j + suc m}
              (omega arith))

-- Blank cells.
pub text_from-blank :
    (s : Screen) (i j n : ℕ)
    → ((m : ℕ) → j ≤ m → m < j + n → (s.cell i m).0 ≡ b' ')
    → text_from s i j n ≡ replicate n b' '
unfolding text_from
text_from-blank s i j zero h = refl
text_from-blank s i j (suc n) h =
    rw
      (
        h j (omega arith) (omega arith),
        text_from-blank s i (suc j) n (λ m le lt. h m (omega (arith, le)) (omega (arith, lt))),
      )
      refl
