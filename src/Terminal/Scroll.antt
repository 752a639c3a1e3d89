-- ===== src/Terminal/Scroll.antt =====
-- Clearing and scrolling: from the ring of video memory to the screen.
use wig_osx.Base.{
  ℕ, suc, ◌+◌, ◌<◌, ◌≡◌, refl, sym, ◌∙◌, ap, inl, inr, false, arith, ◌==◌, if◌then◌else◌,
  Bool-cases,
}
use wig_osx.Base.Loops.{for_range_inv}
use wig_osx.Terminal.{
  Terminal, get_buffer_index, clear_row, clear, scroll_up, vga_entry, set_hardware_view_start,
  wrap_index,
}
use wig_osx.Terminal.Rows.{entry_at, SameFrame, clear_row_lem}
use wig_osx.Terminal.Screen.{Screen, blank}
use wig_osx.Terminal.Shows.{Shows, display_start, display_start-set_hardware_view_start}

-- The first `n` rows of `u` are blank.
record Cleared (n : ℕ) (t u : Terminal) : Type 0 where
  pub same : SameFrame t u
  pub entries : (k l : ℕ) → k < 25 → l < 80 → k < n → entry_at u k l ≡ vga_entry b' ' t.color

Cleared-round :
    (n : ℕ) (t u : Terminal) → n < 25 → Cleared n t u → Cleared (suc n) t (clear_row u n)
Cleared-round n t u h c =
    let (f, e) = clear_row_lem n u h in
    record {
      same = record {
        row = f.row ∙ c.same.row;
        column = f.column ∙ c.same.column;
        view_start = f.view_start ∙ c.same.view_start;
        color = f.color ∙ c.same.color;
        writes = f.writes ∙ c.same.writes;
      };
      entries = λ k l p q r.
          ground (arith, e k l p q, c.entries k l p q, ap (vga_entry b' ') c.same.color);
    }

-- The terminal after `terminal_clear` shows a blank screen in its colour, whatever it held.
pub Shows-clear :
    (t : Terminal) (s : Screen)
    → t.color ≡ s.color
    → Shows (clear t) (wig_osx.Terminal.Screen.clear s)
unfolding clear wig_osx.Terminal.Screen.clear
Shows-clear t s e =
    let start = set_hardware_view_start (record t { view_start = 0 }) 0 in
    let c =
      for_range_inv (λ n u. Cleared n start u) (λ y u. clear_row u y) 25 0 25 start (omega arith)
        (λ n u lo hi b. Cleared-round n start u hi b)
        (record {
          same = record {
            row = refl;
            column = refl;
            view_start = refl;
            color = refl;
            writes = refl;
          };
          entries = λ k l p q r. absurd (omega arith);
        }) in
    unfold set_hardware_view_start entry_at get_buffer_index in
    record {
      row = refl;
      column = refl;
      color = c.same.color ∙ e;
      row_lt = omega arith;
      column_lt = omega arith;
      start_lt = omega (arith, c.same.view_start);
      display =
          ap display_start c.same.writes
          ∙ display_start-set_hardware_view_start (record t { view_start = 0 }) 0 (omega arith)
          ∙ sym c.same.view_start;
      cells = λ i j p q. c.entries i j p q p ∙ ap (vga_entry b' ') e;
    }

-- After the start has moved on by a row, row `i` is what row `i + 1` was.
entry_at-moved :
    (t : Terminal) (i j : ℕ)
    → entry_at
        (set_hardware_view_start
          (record t { view_start = wrap_index (t.view_start + 80) })
          (wrap_index (t.view_start + 80)))
        i
        j
      ≡ entry_at t (i + 1) j
unfolding entry_at get_buffer_index wrap_index set_hardware_view_start
entry_at-moved t i j = ap t.buffer (omega arith)

choose_cell :
    (i k e b : ℕ) (x y : ℕ × ℕ)
    → k ≡ (if 24 == i then b else e)
    → b ≡ vga_entry x.0 x.1
    → ((i == 24) ≡ false → e ≡ vga_entry y.0 y.1)
    → k ≡ vga_entry (if i == 24 then x else y).0 (if i == 24 then x else y).1
choose_cell i k e b x y h p q = elim (Bool-cases (i == 24)) [
  | inl r ↦ rw r (h ∙ ground arith)
  | inr r ↦ rw r (h ∙ ground arith)
]

pub Shows-scroll :
    (t : Terminal) (s : Screen) → Shows t s → Shows (scroll_up t) (wig_osx.Terminal.Screen.scroll s)
unfolding scroll_up wig_osx.Terminal.Screen.scroll
Shows-scroll t s w =
    let start = wrap_index (t.view_start + 80) in
    let moved = set_hardware_view_start (record t { view_start = start }) start in
    let small : start < 16384 = unfold wrap_index in omega arith in
    let (f, e) = clear_row_lem 24 moved (omega arith) in
    unfold set_hardware_view_start in
    record {
      row = f.row ∙ w.row;
      column = f.column ∙ w.column;
      color = f.color ∙ w.color;
      row_lt = w.row_lt;
      column_lt = w.column_lt;
      start_lt = omega (arith, f.view_start, small);
      display =
          ap display_start f.writes
          ∙ display_start-set_hardware_view_start (record t { view_start = start }) start
              (omega arith)
          ∙ sym f.view_start;
      cells = λ i j p q.
          choose_cell i _ _ _ (blank s) (s.cell (i + 1) j) (e i j p q) (ap (vga_entry b' ') w.color)
            (λ r. entry_at-moved t i j ∙ w.cells (i + 1) j (ground arith) q);
    }
