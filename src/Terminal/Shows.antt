-- ===== src/Terminal/Shows.antt =====
-- What it means that the terminal shows a screen, and how writing a cell keeps that.
use wig_osx.Base.{
  ℕ, ◌+◌, ◌*◌, ◌/◌, ◌%◌, ◌<◌, ◌≡◌, refl, sym, subst, ◌∙◌, ap, Bool, true, false, ◌&&◌, List, [],
  ◌∷◌, ◌++◌, arith, ◌==◌, if◌then◌else◌,
}
use wig_osx.Base.Bits.{bit_and-ones}
use wig_osx.Pic.{Write}
use wig_osx.Terminal.{
  Terminal, put_cell, vga_entry, set_hardware_view_start, vga_crtc_index_port, vga_crtc_data_port,
}
use wig_osx.Terminal.Rows.{entry_at, entry_at-put_cell, SameFrame-put_cell}
use wig_osx.Terminal.Screen.{Screen, show}

-- The display controller's index register and its two registers for the start of the screen.
pub record Crtc : Type 0 where
  pub index : ℕ
  pub high : ℕ
  pub low : ℕ

store_register : ℕ → Crtc → Crtc
store_register value r =
    if r.index == 0x0C
    then record r { high = value }
    else if r.index == 0x0D
    then record r { low = value }
    else r

accept : Write → Crtc → Crtc
unfolding store_register
accept w r =
    if w.port == vga_crtc_index_port
    then record r { index = w.value }
    else if w.port == vga_crtc_data_port
    then store_register w.value r
    else r

-- The registers after a sequence of writes to ports.
unfoldable pub crtc_after : List Write → Crtc → Crtc
unfolding accept
crtc_after [] r = r
crtc_after (w ∷ ws) r = crtc_after ws (accept w r)

-- The cell of video memory that the display starts at.
unfoldable pub display_start : List Write → ℕ
display_start ws =
    let r = crtc_after ws (record { index = 0; high = 0; low = 0 }) in r.high * 256 + r.low

crtc_after-append :
    (vs ws : List Write) (r : Crtc) → crtc_after (vs ++ ws) r ≡ crtc_after ws (crtc_after vs r)
unfolding crtc_after
crtc_after-append [] ws r = refl
crtc_after-append (v ∷ vs) ws r = crtc_after-append vs ws (accept v r)

pub display_start-set_hardware_view_start :
    (t : Terminal) (a : ℕ) → a < 65536 → display_start (set_hardware_view_start t a).writes ≡ a
unfolding display_start set_hardware_view_start crtc_after
display_start-set_hardware_view_start t a h =
    ap (λ (r : Crtc). r.high * 256 + r.low)
      (crtc_after-append t.writes _ (record { index = 0; high = 0; low = 0 }))
    ∙ omega (arith, bit_and-ones 8 (a % 65536 / 256), bit_and-ones 8 (a % 65536))

-- The terminal `t` shows the screen `s`: same cursor and colour, the cursor on the screen, the entry of every cell
-- in place, and the display starting at the first of them.
pub record Shows (t : Terminal) (s : Screen) : Type 0 where
  pub row : t.row ≡ s.row
  pub column : t.column ≡ s.column
  pub color : t.color ≡ s.color
  pub row_lt : s.row < 25
  pub column_lt : s.column < 80
  pub start_lt : t.view_start < 16384
  pub display : display_start t.writes ≡ t.view_start
  pub cells : (i j : ℕ) → i < 25 → j < 80 → entry_at t i j ≡ vga_entry (s.cell i j).0 (s.cell i j).1

choose :
    (b : Bool) (x y : ℕ × ℕ) (e : ℕ)
    → e ≡ vga_entry y.0 y.1
    → (if b then vga_entry x.0 x.1 else e) ≡ vga_entry (if b then x else y).0 (if b then x else y).1
choose true x y e h = refl
choose false x y e h = h

pub Shows-put_cell :
    (t : Terminal) (s : Screen) (i j c : ℕ)
    → i < 25
    → j < 80
    → Shows t s
    → Shows (put_cell t i j c) (show s i j c)
Shows-put_cell t s i j c p q w =
    let f = SameFrame-put_cell t i j c in
    record {
      row = f.row ∙ w.row;
      column = f.column ∙ w.column;
      color = f.color ∙ w.color;
      row_lt = w.row_lt;
      column_lt = w.column_lt;
      start_lt = omega (arith, f.view_start, w.start_lt);
      display = ap display_start f.writes ∙ w.display ∙ sym f.view_start;
      cells = λ k l a b.
          entry_at-put_cell t i j c k l p q a b
          ∙ ap (λ z. if i == k && j == l then vga_entry c z else entry_at t k l) w.color
          ∙ choose (i == k && j == l) (c, s.color) (s.cell k l) (entry_at t k l) (w.cells k l a b);
    }

-- A cell is written at the cursor.
pub Shows-put_here :
    (t : Terminal) (s : Screen) (c : ℕ)
    → Shows t s
    → Shows (put_cell t t.row t.column c) (show s s.row s.column c)
Shows-put_here t s c w =
    let there = Shows-put_cell t s s.row s.column c w.row_lt w.column_lt w in
    subst (λ i. Shows (put_cell t i t.column c) (show s s.row s.column c)) (sym w.row)
      (subst (λ j. Shows (put_cell t s.row j c) (show s s.row s.column c)) (sym w.column) there)

-- The cursor moves within the screen.
pub Shows-move :
    (t : Terminal) (s : Screen) (i k j l : ℕ)
    → i ≡ k
    → j ≡ l
    → k < 25
    → l < 80
    → Shows t s
    → Shows (record t { row = i; column = j }) (record s { row = k; column = l })
unfolding entry_at wig_osx.Terminal.get_buffer_index
Shows-move t s i k j l e f p q w = record {
  row = e;
  column = f;
  color = w.color;
  row_lt = p;
  column_lt = q;
  start_lt = w.start_lt;
  display = w.display;
  cells = w.cells;
}

-- Both take the same branch.
pub Shows-if :
    (b c : Bool) (x y : Terminal) (u v : Screen)
    → b ≡ c
    → (c ≡ true → Shows x u)
    → (c ≡ false → Shows y v)
    → Shows (if b then x else y) (if c then u else v)
Shows-if true true x y u v e f g = f refl
Shows-if false false x y u v e f g = g refl
Shows-if true false x y u v e f g = absurd (ground (arith, e))
Shows-if false true x y u v e f g = absurd (ground (arith, e))
