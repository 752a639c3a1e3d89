-- ===== src/Terminal.antt =====
-- The VGA text terminal, src/drivers/vga.c: a screen of 25 rows of 80 cells that scrolls by moving its start
-- through a ring of 16384 cells of video memory.
pub mod Screen
pub mod Rows
pub mod Shows
pub mod Scroll
pub mod Refine
mod Tests
use wig_osx.Base.{
  ℕ, zero, suc, ◌+◌, ◌-◌, ◌*◌, ◌/◌, ◌%◌, Bool, true, false, List, [], ◌∷◌, ◌++◌, ltb, leb, ◌==◌,
  if◌then◌else◌, bit_and, bit_or, update,
}
use wig_osx.Base.Loops.{for_range}
use wig_osx.Pic.{Write, outb}

-- `VGA_WIDTH`, `VGA_HEIGHT`, `TAB_WIDTH` and `VGA_TEXT_MEMORY_CELLS`.
abbrev pub vga_width : ℕ
vga_width = 80

abbrev pub vga_height : ℕ
vga_height = 25

abbrev pub tab_width : ℕ
tab_width = 4

abbrev pub vga_text_memory_cells : ℕ
vga_text_memory_cells = 16384

abbrev pub vga_crtc_index_port : ℕ
vga_crtc_index_port = 0x3D4

abbrev pub vga_crtc_data_port : ℕ
vga_crtc_data_port = 0x3D5

-- The file's static variables: the buffer by cell, and the writes to ports so far.
pub record Terminal : Type 0 where
  pub row : ℕ
  pub column : ℕ
  pub view_start : ℕ
  pub color : ℕ
  pub buffer : ℕ → ℕ
  pub writes : List Write

unfoldable pub wrap_index : ℕ → ℕ
wrap_index index = index % vga_text_memory_cells

unfoldable pub get_buffer_index : Terminal → ℕ → ℕ → ℕ
unfolding wrap_index
get_buffer_index t row column = wrap_index (t.view_start + row * vga_width + column)

unfoldable pub set_hardware_view_start : Terminal → ℕ → Terminal
set_hardware_view_start t cell_offset =
    let address = cell_offset % 65536 in
    record t {
      writes =
          t.writes
          ++ (outb vga_crtc_index_port 0x0C
              ∷ outb vga_crtc_data_port (bit_and (address / 256) 0xFF)
              ∷ outb vga_crtc_index_port 0x0D
              ∷ outb vga_crtc_data_port (bit_and address 0xFF)
              ∷ []);
    }

unfoldable pub vga_entry : ℕ → ℕ → ℕ
vga_entry character color = bit_or character (color * 256) % 65536

unfoldable pub vga_entry_color : ℕ → ℕ → ℕ
vga_entry_color foreground background = bit_or foreground (background * 16) % 256

-- A cell on the screen is written.
unfoldable pub put_cell : Terminal → ℕ → ℕ → ℕ → Terminal
unfolding get_buffer_index vga_entry
put_cell t row column character = record t {
  buffer = update t.buffer (get_buffer_index t row column) (vga_entry character t.color);
}

unfoldable pub clear_row : Terminal → ℕ → Terminal
clear_row t row = for_range vga_width 0 (λ x u. put_cell u row x b' ') t

unfoldable pub clear : Terminal → Terminal
clear t =
    let start = set_hardware_view_start (record t { view_start = 0 }) 0 in
    let blank = for_range vga_height 0 (λ y u. clear_row u y) start in
    record blank { row = 0; column = 0 }

unfoldable pub initialize : Terminal → Terminal
initialize t = clear (record t { row = 0; column = 0; view_start = 0; color = vga_entry_color 7 0 })

unfoldable pub setcolor : Terminal → ℕ → Terminal
setcolor t color = record t { color = color }

unfoldable pub scroll_up : Terminal → Terminal
unfolding wrap_index
scroll_up t =
    let start = wrap_index (t.view_start + vga_width) in
    clear_row (set_hardware_view_start (record t { view_start = start }) start) (vga_height - 1)

unfoldable pub newline : Terminal → Terminal
newline t =
    let home = record t { column = 0 } in
    if leb vga_height (t.row + 1)
    then record (scroll_up home) { row = vga_height - 1 }
    else record home { row = t.row + 1 }

unfoldable pub carriage_return : Terminal → Terminal
carriage_return t = record t { column = 0 }

-- The last part of `terminal_backspace`: the cell under the cursor is blanked.
unfoldable pub blank_here : Terminal → Terminal
blank_here t = put_cell t t.row t.column b' '

unfoldable pub backspace : Terminal → Terminal
unfolding blank_here
backspace t =
    if ltb 0 t.column
    then blank_here (record t { column = t.column - 1 })
    else if ltb 0 t.row
    then blank_here (record t { row = t.row - 1; column = vga_width - 1 })
    else t

-- The default case of `terminal_putchar`: a character that is no control character is shown.
unfoldable pub put_visible : Terminal → ℕ → Terminal
put_visible t c =
    let shown = put_cell t t.row t.column c in
    let moved = record shown { column = t.column + 1 } in
    if leb vga_width moved.column then newline moved else moved

-- `terminal_tab`, whose calls of `terminal_putchar` all show a space.
unfoldable pub tab : Terminal → Terminal
tab t = for_range (tab_width - t.column % tab_width) 0 (λ i u. put_visible u b' ') t

unfoldable pub putchar : Terminal → ℕ → Terminal
putchar t c =
    if c == 10
    then newline t
    else if c == 13
    then carriage_return t
    else if c == 9
    then tab t
    else if c == 8
    then backspace t
    else if c == 12
    then clear t
    else put_visible t c

-- `terminal_write` and `terminal_writestring`: the characters up to the given size, or up to the end of the text.
unfoldable pub write : Terminal → List ℕ → Terminal
write t [] = t
write t (c ∷ cs) = write (putchar t c) cs
