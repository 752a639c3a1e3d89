-- ===== src/Keyboard/Modifiers.antt =====
-- The keyboard handler in terms of the raw codes: below 128 a key goes down, from 128 on it comes up.
use wig_osx.Base.{
  ℕ, ◌-◌, ◌%◌, ◌<◌, ◌≡◌, true, false, ◌&&◌, ◌||◌, not, none, some, arith, ltb, ◌==◌, if◌then◌else◌,
  bit_and, ap,
}
use wig_osx.Base.Bits.{bit, bit_and-pow, bit_and-ones}
use wig_osx.Keyboard.{
  Keyboard, handle_interrupt, handle_modifier_press, handle_modifier_release, translate_scancode,
  released_mask,
}

released_lem : (raw : ℕ) → raw < 256 → (bit_and raw released_mask == 0) ≡ ltb raw 128
unfolding bit
released_lem raw h = ground (arith, bit_and-pow 7 raw)

scancode_lem : (raw : ℕ) → bit_and raw (0xFF - released_mask) ≡ raw % 128
scancode_lem raw = bit_and-ones 7 raw

-- A byte from the keyboard changes the modifiers thus: the press of a Shift key (0x2A, 0x36) sets Shift and
-- its release (0xAA, 0xB6) clears it, the press of Caps Lock (0x3A) toggles it, and no other byte changes
-- either.
pub handle_interrupt_modifiers :
    (k : Keyboard) (raw : ℕ)
    → raw < 256
    → (handle_interrupt k raw).1 ≡ record {
      shift_pressed =
          if raw == 0x2A || raw == 0x36
          then true
          else if raw == 0xAA || raw == 0xB6
          then false
          else k.shift_pressed;
      caps_lock_enabled = if raw == 0x3A then not k.caps_lock_enabled else k.caps_lock_enabled;
    }
unfolding handle_interrupt handle_modifier_press handle_modifier_release
handle_interrupt_modifiers k raw h = ground (arith, released_lem raw h, scancode_lem raw)

-- A byte gives a character exactly when a key goes down that is no modifier and has an entry in the table
-- in force; the character is that entry.
pub handle_interrupt_character :
    (k : Keyboard) (raw : ℕ)
    → raw < 256
    → (handle_interrupt k raw).0 ≡ (
        if ltb raw 128
          && (not (raw == 0x2A || (raw == 0x36 || raw == 0x3A))
              && not (translate_scancode k raw == 0))
        then some (translate_scancode k raw)
        else none)
unfolding handle_interrupt handle_modifier_press
handle_interrupt_character k raw h = ground (
  arith,
  released_lem raw h,
  scancode_lem raw,
  ap (translate_scancode k) {x = raw % 128} {y = raw},
)
