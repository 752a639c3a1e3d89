-- ===== src/Keyboard/Letters.antt =====
-- Which character a key gives.
use wig_osx.Base.{
  ℕ, ◌+◌, ◌-◌, ◌≤◌, ◌<◌, ◌≡◌, refl, ◌≢◌, Bool, true, ◌&&◌, ◌||◌, not, some, arith, leb, ◌==◌,
  if◌then◌else◌, get_or,
}
use wig_osx.Base.Bits.{all_below, all_below_sound}
use wig_osx.Keyboard.Modifiers.{handle_interrupt_modifiers, handle_interrupt_character}
use wig_osx.Keyboard.{
  Keyboard, normal_map, shift_map, is_letter_scancode, translate_scancode, differ, handle_interrupt,
}

-- On the letter keys the two tables give a lower-case letter and its upper case.
letter_row : ℕ → Bool
letter_row c =
    not (is_letter_scancode c)
    || ((leb b'a' (get_or normal_map c 0) && leb (get_or normal_map c 0) b'z')
        && (get_or shift_map c 0 + 32 == get_or normal_map c 0))

letter_table : all_below 128 letter_row ≡ true
unfolding all_below letter_row is_letter_scancode normal_map shift_map
letter_table = refl

letters :
    (c : ℕ)
    → is_letter_scancode c ≡ true
    → (b'a' ≤ get_or normal_map c 0)
      × (get_or normal_map c 0 ≤ b'z')
      × (get_or shift_map c 0 + 32 ≡ get_or normal_map c 0)
unfolding letter_row is_letter_scancode
letters c h = ground (arith, all_below_sound 128 letter_row c letter_table)

letter_small : (c : ℕ) → is_letter_scancode c ≡ true → c < 0x33
unfolding is_letter_scancode
letter_small c h = ground arith

letter_not_modifier : (c : ℕ) → is_letter_scancode c ≡ true → (c ≢ 0x2A) × (c < 0x36)
unfolding is_letter_scancode
letter_not_modifier c h = ground arith

pub handle_letter :
    (k : Keyboard) (c : ℕ)
    → is_letter_scancode c ≡ true
    → let lower = get_or normal_map c 0 in
      (b'a' ≤ lower)
      × (lower ≤ b'z')
      × (handle_interrupt k c
          ≡ (some (if differ k.shift_pressed k.caps_lock_enabled then lower - 32 else lower), k))
unfolding translate_scancode
handle_letter k c h =
    let (lo, hi, up) = letters c h in
    let small : c < 0x33 = letter_small c h in
    (
      lo,
      hi,
      ground (
        arith,
        handle_interrupt_modifiers k c (omega arith),
        handle_interrupt_character k c (omega arith),
        letter_not_modifier c h,
      ),
    )
