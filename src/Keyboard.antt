-- ===== src/Keyboard.antt =====
-- The PS/2 keyboard, src/drivers/keyboard.c: scancodes of set 1 to characters, with Shift and Caps Lock.
pub mod Letters
pub mod Modifiers
pub mod Layout
mod Tests
use wig_osx.Base.{
  ℕ, ◌+◌, ◌-◌, ◌≡◌, Bool, true, false, ◌&&◌, ◌||◌, not, Option, none, some, List, [], ◌∷◌, ltb, leb,
  ◌==◌, if◌then◌else◌, bit_and, get_or,
}

-- `KEYBOARD_RELEASED_MASK` and `KEYBOARD_SCANCODE_TABLE_SIZE`.
abbrev pub released_mask : ℕ
released_mask = 0x80

abbrev pub scancode_table_size : ℕ
scancode_table_size = 128

abbrev pub scancode_left_shift : ℕ
scancode_left_shift = 0x2A

abbrev pub scancode_right_shift : ℕ
scancode_right_shift = 0x36

abbrev pub scancode_caps_lock : ℕ
scancode_caps_lock = 0x3A

-- The tables; entries behind the last one given are 0, as in C.
unfoldable pub normal_map : List ℕ
normal_map =
    0 ∷ 0 ∷ 49 ∷ 50 ∷ 51 ∷ 52 ∷ 53 ∷ 54 ∷ 55 ∷ 56 ∷ 57 ∷ 48 ∷ 45 ∷ 61 ∷ 8 ∷ 9 ∷ 113 ∷ 119 ∷ 101
    ∷ 114 ∷ 116 ∷ 121 ∷ 117 ∷ 105 ∷ 111 ∷ 112 ∷ 91 ∷ 93 ∷ 10 ∷ 0 ∷ 97 ∷ 115 ∷ 100 ∷ 102 ∷ 103 ∷ 104
    ∷ 106 ∷ 107 ∷ 108 ∷ 59 ∷ 39 ∷ 96 ∷ 0 ∷ 92 ∷ 122 ∷ 120 ∷ 99 ∷ 118 ∷ 98 ∷ 110 ∷ 109 ∷ 44 ∷ 46 ∷ 47
    ∷ 0 ∷ 0 ∷ 0 ∷ 32 ∷ []

unfoldable pub shift_map : List ℕ
shift_map =
    0 ∷ 0 ∷ 33 ∷ 64 ∷ 35 ∷ 36 ∷ 37 ∷ 94 ∷ 38 ∷ 42 ∷ 40 ∷ 41 ∷ 95 ∷ 43 ∷ 8 ∷ 9 ∷ 81 ∷ 87 ∷ 69 ∷ 82
    ∷ 84 ∷ 89 ∷ 85 ∷ 73 ∷ 79 ∷ 80 ∷ 123 ∷ 125 ∷ 10 ∷ 0 ∷ 65 ∷ 83 ∷ 68 ∷ 70 ∷ 71 ∷ 72 ∷ 74 ∷ 75 ∷ 76
    ∷ 58 ∷ 34 ∷ 126 ∷ 0 ∷ 124 ∷ 90 ∷ 88 ∷ 67 ∷ 86 ∷ 66 ∷ 78 ∷ 77 ∷ 60 ∷ 62 ∷ 63 ∷ 0 ∷ 0 ∷ 0 ∷ 32
    ∷ []

-- The file's static variables.
pub record Keyboard : Type 0 where
  pub shift_pressed : Bool
  pub caps_lock_enabled : Bool

unfoldable pub is_letter_scancode : ℕ → Bool
is_letter_scancode scancode =
    (leb 0x10 scancode && leb scancode 0x19)
    || ((leb 0x1E scancode && leb scancode 0x26) || (leb 0x2C scancode && leb scancode 0x32))

unfoldable pub is_shift : ℕ → Bool
is_shift scancode = scancode == scancode_left_shift || scancode == scancode_right_shift

unfoldable pub handle_modifier_press : Keyboard → ℕ → Keyboard
unfolding is_shift
handle_modifier_press k scancode =
    if is_shift scancode
    then record k { shift_pressed = true }
    else if scancode == scancode_caps_lock
    then record k { caps_lock_enabled = not k.caps_lock_enabled }
    else k

unfoldable pub handle_modifier_release : Keyboard → ℕ → Keyboard
unfolding is_shift
handle_modifier_release k scancode =
    if is_shift scancode then record k { shift_pressed = false } else k

-- `a ^ b` on booleans.
abbrev pub differ : Bool → Bool → Bool
differ true b = not b
differ false b = b

unfoldable pub translate_scancode : Keyboard → ℕ → ℕ
unfolding is_letter_scancode
translate_scancode k scancode =
    if leb scancode_table_size scancode
    then 0
    else if is_letter_scancode scancode
    then (if differ k.shift_pressed k.caps_lock_enabled
        then get_or shift_map scancode 0
        else get_or normal_map scancode 0)
    else if k.shift_pressed
    then get_or shift_map scancode 0
    else get_or normal_map scancode 0

-- `keyboard_handle_interrupt` with a pointer that is not `NULL`: `raw_scancode` is the byte that the data
-- port gives, and `none` stands for `false`.
unfoldable pub handle_interrupt : Keyboard → ℕ → Option ℕ × Keyboard
unfolding is_shift
handle_interrupt k raw_scancode =
    let released = not (bit_and raw_scancode released_mask == 0) in
    let scancode = bit_and raw_scancode (0xFF - released_mask) in
    if released
    then (none, handle_modifier_release k scancode)
    else let pressed = handle_modifier_press k scancode in
      if is_shift scancode || scancode == scancode_caps_lock
      then (none, pressed)
      else let ascii = translate_scancode pressed scancode in
        if ascii == 0 then (none, pressed) else (some ascii, pressed)
