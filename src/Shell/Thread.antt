-- ===== src/Shell/Thread.antt =====
-- Foreground work as a sequence of steps between which interrupts may arrive.
use wig_osx.Base.{ℕ, some, List}
use wig_osx.System.{System, Outcome, running, kernel_panic}

-- What is left to do: nothing; to panic; or a step, and what follows it, which depends on the state that the step
-- found.
pub data Thread : Type 0 where
  finished : Thread
  panics : List ℕ → Thread
  act : (System → System) → (System → Thread) → Thread

-- A step that decides nothing.
abbrev pub then_do : (System → System) → Thread → Thread
then_do f next = act f (λ s. next)

-- A step that only looks.
abbrev pub look : (System → Thread) → Thread
look next = act (λ s. s) next

unfoldable pub after : Thread → Thread → Thread
after finished next = next
after (panics message) next = panics message
after (act f rest) next = act f (λ s. after (rest s) next)

module _ (line_status : ℕ → ℕ) where
  -- All that is left, with no interrupt on the way.
  unfoldable pub finish : Thread → System → Outcome
  finish finished s = running s
  finish (panics message) s = kernel_panic line_status (some message) s
  finish (act f rest) s = finish (rest s) (f s)
