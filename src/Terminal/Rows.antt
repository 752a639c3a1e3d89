-- ===== src/Terminal/Rows.antt =====
-- Cells of the screen in the ring of video memory: writing one, and blanking a row.
use wig_osx.Base.{
  ℕ, suc, ◌+◌, ◌*◌, ◌%◌, ◌<◌, ◌≡◌, refl, ◌∙◌, ap, ◌&&◌, arith, ltb, ◌==◌, if◌then◌else◌,
}
use wig_osx.Base.Loops.{for_range_inv}
use wig_osx.Terminal.{Terminal, get_buffer_index, put_cell, clear_row, vga_entry}

-- The entry that the screen shows at a row and a column.
unfoldable pub entry_at : Terminal → ℕ → ℕ → ℕ
entry_at t i j = t.buffer (get_buffer_index t i j)

-- Cells of the screen lie in video memory, and different cells at different places.
pub get_buffer_index-lt : (t : Terminal) (i j : ℕ) → get_buffer_index t i j < 16384
unfolding get_buffer_index
get_buffer_index-lt t i j = omega arith

index-injective :
    (v i j k l : ℕ)
    → i < 25
    → j < 80
    → k < 25
    → l < 80
    → ((v + i * 80 + j) % 16384 == (v + k * 80 + l) % 16384) ≡ (i == k && j == l)
index-injective v i j k l a b c d = ground arith

pub entry_at-put_cell :
    (t : Terminal) (i j c k l : ℕ)
    → i < 25
    → j < 80
    → k < 25
    → l < 80
    → entry_at (put_cell t i j c) k l
      ≡ (if i == k && j == l then vga_entry c t.color else entry_at t k l)
unfolding entry_at put_cell
entry_at-put_cell t i j c k l p q r s =
    ap (λ b. if b then vga_entry c t.color else entry_at t k l)
      (index-injective t.view_start i j k l p q r s)

-- `u` is `t` with other cells: the cursor, the colour and the place of the screen are the same.
pub record SameFrame (t u : Terminal) : Type 0 where
  pub row : u.row ≡ t.row
  pub column : u.column ≡ t.column
  pub view_start : u.view_start ≡ t.view_start
  pub color : u.color ≡ t.color
  pub writes : u.writes ≡ t.writes

pub SameFrame-put_cell : (t : Terminal) (i j c : ℕ) → SameFrame t (put_cell t i j c)
unfolding put_cell
SameFrame-put_cell t i j c = record {
  row = refl;
  column = refl;
  view_start = refl;
  color = refl;
  writes = refl;
}

-- The first `n` cells of row `i` are blank in `u`, the others as in `t`.
record Blanked (i n : ℕ) (t u : Terminal) : Type 0 where
  pub same : SameFrame t u
  pub entries :
      (k l : ℕ)
      → k < 25
      → l < 80
      → entry_at u k l ≡ (if i == k && ltb l n then vga_entry b' ' t.color else entry_at t k l)

Blanked-round :
    (i n : ℕ) (t u : Terminal)
    → i < 25
    → n < 80
    → Blanked i n t u
    → Blanked i (suc n) t (put_cell u i n b' ')
Blanked-round i n t u h k b =
    let f = SameFrame-put_cell u i n b' ' in
    record {
      same = record {
        row = f.row ∙ b.same.row;
        column = f.column ∙ b.same.column;
        view_start = f.view_start ∙ b.same.view_start;
        color = f.color ∙ b.same.color;
        writes = f.writes ∙ b.same.writes;
      };
      entries = λ x y p q. ground (
        arith,
        b.entries x y p q,
        entry_at-put_cell u i n b' ' x y h k p q,
        ap (vga_entry b' ') b.same.color,
      );
    }

-- `terminal_clear_row` blanks its row and nothing else.
pub clear_row_lem :
    (i : ℕ) (t : Terminal)
    → i < 25
    → SameFrame t (clear_row t i)
      × ((k l : ℕ)
          → k < 25
          → l < 80
          → entry_at (clear_row t i) k l
            ≡ (if i == k then vga_entry b' ' t.color else entry_at t k l))
unfolding clear_row
clear_row_lem i t h =
    let b =
      for_range_inv (λ n u. Blanked i n t u) (λ x u. put_cell u i x b' ') 80 0 80 t (omega arith)
        (λ n u lo hi b. Blanked-round i n t u h hi b)
        (record {
          same = record {
            row = refl;
            column = refl;
            view_start = refl;
            color = refl;
            writes = refl;
          };
          entries = λ k l p q. ground arith;
        }) in
    (b.same, λ k l p q. b.entries k l p q ∙ ground arith)
