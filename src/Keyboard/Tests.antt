-- ===== src/Keyboard/Tests.antt =====
-- The keyboard on concrete scan codes.
use wig_osx.Base.{◌≡◌, true, false, some, arith}
use wig_osx.Keyboard.{Keyboard, handle_interrupt}
use wig_osx.Keyboard.Layout.{handle_interrupt-layout}
use wig_osx.Keyboard.Modifiers.{handle_interrupt_modifiers}

abbrev shifted : Keyboard
shifted = record { shift_pressed = true; caps_lock_enabled = false }

-- Shift comes up.
handle_interrupt_modifiers_example :
    (handle_interrupt shifted 0xAA).1 ≡ record { shift_pressed = false; caps_lock_enabled = false }
handle_interrupt_modifiers_example = handle_interrupt_modifiers shifted 0xAA (omega arith)

-- The digit 1 with Shift is an exclamation mark.
handle_interrupt-layout_example : (handle_interrupt shifted 0x02).0 ≡ some 33
unfolding wig_osx.Keyboard.Layout.key
handle_interrupt-layout_example = handle_interrupt-layout shifted 0x02 (omega arith)
