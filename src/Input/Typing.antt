-- ===== src/Input/Typing.antt =====
-- The keyboard interrupt: from a byte of the keyboard to a character in the queue.
use wig_osx.Base.{ℕ, ◌-◌, ◌≡◌, refl, ◌∙◌, ap, Bool, true, Option, none, some, if◌then◌else◌, get_or}
use wig_osx.Input.{Input, enqueue_character}
use wig_osx.Input.Queue
use wig_osx.Input.Refine.{IsValid, view, enqueue-view, enqueue-IsValid}
use wig_osx.Keyboard.{Keyboard, handle_interrupt, is_letter_scancode, normal_map, differ}
use wig_osx.Keyboard.Letters.{handle_letter}

-- The character of the interrupt, if it gave one, is put into the queue.
unfoldable pub deliver : Option ℕ → Input → Input
deliver none s = s
deliver (some ascii) s = (enqueue_character s ascii).1

-- `input_handle_keyboard_interrupt`, on the byte that the data port gives.
unfoldable pub handle_keyboard_interrupt : ℕ → Keyboard → Input → Keyboard × Input
handle_keyboard_interrupt raw_scancode k s =
    let (character, next) = handle_interrupt k raw_scancode in (next, deliver character s)

-- What an interrupt means for the queue of characters.
abbrev pub offer : Option ℕ → Queue.Queue → Queue.Queue
offer none q = q
offer (some c) q = (Queue.push q c).1

pub deliver_lem :
    (c : Option ℕ) (s : Input)
    → IsValid s
    → (view (deliver c s) ≡ offer c (view s)) × IsValid (deliver c s)
unfolding deliver
deliver_lem none s v = (refl, v)
deliver_lem (some c) s v =
    (ap (λ (r : Bool × Queue.Queue). r.1) (enqueue-view s v c), enqueue-IsValid s v c)

-- A keyboard interrupt on a valid ring leaves a valid ring, which stands for the queue with the interrupt's
-- character at its end, or the same queue if there is none, or the same queue and one character more turned
-- away if it is full. For the press of a letter key the character is the lower-case letter of the key, or its
-- upper case when exactly one of Shift and Caps Lock is on.
pub handle_keyboard_interrupt-view :
    (raw letter : ℕ) (k : Keyboard) (s : Input)
    → IsValid s
    → is_letter_scancode letter ≡ true
    → (view (handle_keyboard_interrupt raw k s).1 ≡ offer (handle_interrupt k raw).0 (view s))
      × IsValid (handle_keyboard_interrupt raw k s).1
      × (view (handle_keyboard_interrupt letter k s).1
          ≡ (Queue.push (view s) (
              let lower = get_or normal_map letter 0 in
              if differ k.shift_pressed k.caps_lock_enabled then lower - 32 else lower)).1)
unfolding handle_keyboard_interrupt
handle_keyboard_interrupt-view raw letter k s v h =
    let (e, w) = deliver_lem (handle_interrupt k raw).0 s v in
    let (f, x) = deliver_lem (handle_interrupt k letter).0 s v in
    let (lo, hi, typed) = handle_letter k letter h in
    (e, w, f ∙ ap (λ (r : Option ℕ × Keyboard). offer r.0 (view s)) typed)
