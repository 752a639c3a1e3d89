-- ===== src/Keyboard/Layout.antt =====
-- The characters of the keys, written down by the rows of a US keyboard.
use wig_osx.Base.{
  ℕ, ◌+◌, ◌-◌, ◌<◌, ◌≡◌, refl, Bool, true, false, ◌&&◌, ◌||◌, not, none, some, List, [], ◌∷◌, arith,
  leb, ltb, ◌==◌, if◌then◌else◌, get_or, length,
}
use wig_osx.Base.Bits.{all_below, all_below_sound}
use wig_osx.Base.Text.{text}
use wig_osx.Keyboard.Modifiers.{handle_interrupt_character}
use wig_osx.Keyboard.{
  Keyboard, normal_map, shift_map, is_letter_scancode, translate_scancode, differ, handle_interrupt,
}

-- Characters on keys that follow one another, from the scan code `first` on.
record Row : Type 0 where
  first : ℕ
  characters : List ℕ

row : ℕ → List ℕ → Row
row first characters = record { first = first; characters = characters }

-- The four rows, and the backspace, tab, return and space keys.
rows : Bool → List Row
unfolding text row
rows shifted =
    row 0x02 (text (if shifted then "!@#$%^&*()_+" else "1234567890-="))
    ∷ row 0x10 (text (if shifted then "QWERTYUIOP{}" else "qwertyuiop[]"))
    ∷ row 0x1E (text (if shifted then "ASDFGHJKL:\"~" else "asdfghjkl;'`"))
    ∷ row 0x2B (text (if shifted then "|ZXCVBNM<>?" else "\\zxcvbnm,./"))
    ∷ row 0x0E (8 ∷ [])
    ∷ row 0x0F (9 ∷ [])
    ∷ row 0x1C (10 ∷ [])
    ∷ row 0x39 (b' ' ∷ [])
    ∷ []

find_key : List Row → ℕ → ℕ
find_key [] scancode = 0
find_key (r ∷ rs) scancode =
    if leb r.first scancode && ltb scancode (r.first + length r.characters)
    then get_or r.characters (scancode - r.first) 0
    else find_key rs scancode

-- The character on a key, 0 for a key without one.
unfoldable pub key : Bool → ℕ → ℕ
unfolding find_key rows
key shifted scancode = find_key (rows shifted) scancode

-- The upper characters are in force: for a letter if exactly one of Shift and Caps Lock is on, for any other
-- key if Shift is.
abbrev pub upper : Keyboard → ℕ → Bool
upper k scancode =
    if leb b'a' (key false scancode) && leb (key false scancode) b'z'
    then differ k.shift_pressed k.caps_lock_enabled
    else k.shift_pressed

-- The tables have the layout's characters, letters stand on the letter keys, and the modifiers have none.
agrees : ℕ → Bool
agrees c =
    (get_or normal_map c 0 == key false c && get_or shift_map c 0 == key true c)
    && ((if is_letter_scancode c
          then leb b'a' (key false c) && leb (key false c) b'z'
          else not (leb b'a' (key false c) && leb (key false c) b'z'))
        && (not (c == 0x2A || (c == 0x36 || c == 0x3A)) || (key false c == 0 && key true c == 0)))

layout_table : all_below 128 agrees ≡ true
unfolding all_below agrees key is_letter_scancode normal_map shift_map
layout_table = refl

layout_lem : (c : ℕ) → c < 128 → agrees c ≡ true
layout_lem c h = all_below_sound 128 agrees c layout_table h

translate_scancode_lem :
    (k : Keyboard) (c : ℕ) → c < 128 → translate_scancode k c ≡ key (upper k c) c
unfolding translate_scancode agrees
translate_scancode_lem k c h = ground (arith, layout_lem c h)

modifier_lem :
    (b : Bool) (c : ℕ) → c < 128 → (c == 0x2A || (c == 0x36 || c == 0x3A)) ≡ true → key b c ≡ 0
unfolding agrees
modifier_lem true c h m = ground (arith, layout_lem c h, m)
modifier_lem false c h m = ground (arith, layout_lem c h, m)

-- A byte from the keyboard gives a character exactly when a key with a character goes down, and then that of
-- the US layout: with Shift on the upper one of the key, otherwise the lower one, where Caps Lock swaps the two on
-- the letter keys. The release of a key and the modifier keys give none.
pub handle_interrupt-layout :
    (k : Keyboard) (raw : ℕ)
    → raw < 256
    → (handle_interrupt k raw).0 ≡ (
        if ltb raw 128 && not (key (upper k raw) raw == 0)
        then some (key (upper k raw) raw)
        else none)
handle_interrupt-layout k raw h = ground (
  arith,
  handle_interrupt_character k raw h,
  translate_scancode_lem k raw,
  modifier_lem (upper k raw) raw,
)
