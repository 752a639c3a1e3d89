-- ===== src/Input/Tests.antt =====
-- The keyboard queue on concrete inputs.
use wig_osx.Base.{refl, true, false, ◌≡◌, List, [], ◌∷◌, arith}
use wig_osx.Input.{Input, run}
use wig_osx.Input.Typing.{handle_keyboard_interrupt, handle_keyboard_interrupt-view, offer}
use wig_osx.Keyboard.{Keyboard, handle_interrupt}
use wig_osx.Input.Queue.{Op, put, get}
use wig_osx.Input.Refine.{IsValid, view, run-refines}

-- The indices are about to wrap, and one character is pending.
abbrev near_wrap : Input
near_wrap = record {
  queue = λ i. 7;
  head = 4294967295;
  tail = 4294967294;
  dropped_character_count = 3;
}

near_wrap-IsValid : IsValid near_wrap
near_wrap-IsValid = omega arith

abbrev some_ops : List Op
some_ops = put 65 ∷ get ∷ put 66 ∷ get ∷ get ∷ get ∷ []

run-refines_example :
    (((run some_ops near_wrap).0, view (run some_ops near_wrap).1)
      ≡ wig_osx.Input.Queue.run some_ops (view near_wrap))
    × IsValid (run some_ops near_wrap).1
run-refines_example = run-refines some_ops near_wrap near_wrap-IsValid

abbrev capitals : Keyboard
capitals = record { shift_pressed = false; caps_lock_enabled = true }

-- Key 0x9E comes up, and key 0x1E, which is `A`, goes down.
handle_keyboard_interrupt-view_example :
    (view (handle_keyboard_interrupt 0x9E capitals near_wrap).1
      ≡ offer (handle_interrupt capitals 0x9E).0 (view near_wrap))
    × IsValid (handle_keyboard_interrupt 0x9E capitals near_wrap).1
    × (view (handle_keyboard_interrupt 0x1E capitals near_wrap).1
        ≡ (wig_osx.Input.Queue.push (view near_wrap) 65).1)
unfolding wig_osx.Keyboard.is_letter_scancode wig_osx.Keyboard.normal_map
handle_keyboard_interrupt-view_example =
    handle_keyboard_interrupt-view 0x9E 0x1E capitals near_wrap near_wrap-IsValid refl
