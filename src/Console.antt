-- ===== src/Console.antt =====
-- The console, src/kernel/console.c: the terminal, once it is initialised.
use wig_osx.Base.{ℕ, Bool, true, not, List, if◌then◌else◌}
use wig_osx.Terminal
use wig_osx.Terminal.{Terminal}

pub record Console : Type 0 where
  pub initialized : Bool
  pub terminal : Terminal

unfoldable pub initialize : Console → Console
initialize s = record { initialized = true; terminal = Terminal.initialize s.terminal }

unfoldable pub putchar : Console → ℕ → Console
putchar s character =
    if not s.initialized then s else record s { terminal = Terminal.putchar s.terminal character }

-- `console_writestring` of a text that is not `NULL`.
unfoldable pub writestring : Console → List ℕ → Console
writestring s text =
    if not s.initialized then s else record s { terminal = Terminal.write s.terminal text }

unfoldable pub clear : Console → Console
clear s = if not s.initialized then s else record s { terminal = Terminal.clear s.terminal }
