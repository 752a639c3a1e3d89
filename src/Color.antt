-- ===== src/Color.antt =====
-- The colours of VGA text mode, include/kernel/drivers/vga.h.
use wig_osx.Base.{ℕ}

-- `enum vga_color`.
pub data VgaColor : Type 0 where
  black : VgaColor
  blue : VgaColor
  green : VgaColor
  cyan : VgaColor
  red : VgaColor
  magenta : VgaColor
  brown : VgaColor
  light_grey : VgaColor
  dark_grey : VgaColor
  light_blue : VgaColor
  light_green : VgaColor
  light_cyan : VgaColor
  light_red : VgaColor
  light_magenta : VgaColor
  light_brown : VgaColor
  white : VgaColor

-- The numbers that the enumeration gives its constants.
abbrev pub color_value : VgaColor → ℕ
color_value black = 0
color_value blue = 1
color_value green = 2
color_value cyan = 3
color_value red = 4
color_value magenta = 5
color_value brown = 6
color_value light_grey = 7
color_value dark_grey = 8
color_value light_blue = 9
color_value light_green = 10
color_value light_cyan = 11
color_value light_red = 12
color_value light_magenta = 13
color_value light_brown = 14
color_value white = 15
