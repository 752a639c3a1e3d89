-- ===== src/Shell/Whole.antt =====
-- What the steps of a character do, taken one after the other.
use wig_osx.Base.{ℕ, ◌≡◌, ◌∙◌, false, List}
use wig_osx.Interrupts.{is_in_context}
use wig_osx.Shell.Atomic.{finish-character}
use wig_osx.Shell.Buffer.{Shell}
use wig_osx.Shell.Line.{Holds, Untouched, edit}
use wig_osx.Shell.Refine.{respond, with_shell, handle_character-Holds}
use wig_osx.Shell.Steps.{character_thread}
use wig_osx.Shell.Thread.{finish}
use wig_osx.System.{System, running}

module _ (line_status : ℕ → ℕ) where
  -- The steps into which interrupts may come, taken with none in between: outside an interrupt, they
  -- end without a panic, with the line that `edit` makes of the line before and the character, with the
  -- command executed that the table has for the line, and with the buffer behind the line as it was.
  pub finish-character-Holds :
      (line : List ℕ) (s : System)
      → Holds s.kernel.shell line
      → (c : ℕ) → is_in_context s.interrupts ≡ false
      → (next : Shell) × (finish line_status (character_thread line_status c) s
          ≡ running (with_shell (respond line_status c line s) next))
        × Holds next (edit c line)
        × Untouched s.kernel.shell next
  finish-character-Holds line s holds c out =
      let (next, e, h, u) = handle_character-Holds line_status line s holds c out in
      (next, finish-character line_status c s ∙ e, h, u)
