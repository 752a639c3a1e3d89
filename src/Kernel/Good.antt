-- ===== src/Kernel/Good.antt =====
-- Steps of the foreground that interrupts cannot disturb.
use wig_osx.Base.{
  ℕ, ◌≡◌, refl, sym, subst, Bool, true, false, List, [], ◌∷◌, ◌++◌, arith, leb, ltb, ◌==◌,
  pick_then, pick_else, if◌then◌else◌, length,
}
use wig_osx.Interrupts.{is_in_context}
use wig_osx.Kernel.Model.{core, CoreStands, Stands, Model}
use wig_osx.Log.{Call}
use wig_osx.Shell.Buffer.{Shell}
use wig_osx.Shell.Commands.{
  Command, no_command, help_command, clear_command, version_command, ticks_command, irq_command,
  input_command, mem_command, pmm_command, pmm_test_command, heap_command, paging_command,
  about_command, scroll_command, unknown_command,
}
use wig_osx.Shell.Line.{
  Holds, edit, drop_last, reset_buffer-Holds, store-Holds, drop-Holds, drop_last-nil,
}
use wig_osx.Shell.Output.{Printed}
use wig_osx.Shell.Refine.{with_shell}
use wig_osx.Shell.Steps.{
  print_thread, log_thread, pmm_test_thread, command_thread, newline_thread, backspace_thread,
  other_thread, character_thread,
}
use wig_osx.Shell.Thread.{Thread, finished, panics, act, after, finish}
use wig_osx.Shell.{print_prompt}
use wig_osx.System.{System, running}

-- Whatever else of the state interrupts change before each step, the steps leave the dispatcher, the processor, the
-- keyboard, the queue and the ticks alone, do not panic, and turn this buffer into one that holds the line.
unfoldable pub Good : Thread → Shell → List ℕ → Type 0
Good finished b line = Holds b line
Good (panics message) b line = ⊥
Good (act f rest) b line =
    (s : System)
    → is_in_context s.interrupts ≡ false
    → (core (f (with_shell s b)) ≡ core s)
      × Good (rest (with_shell s b)) (f (with_shell s b)).kernel.shell line

-- Steps that leave the buffer alone as well.
unfoldable pub Quiet : Thread → Type 0
Quiet finished = Unit {0}
Quiet (panics message) = ⊥
Quiet (act f rest) =
    (s : System) → (core (f s) ≡ core s) × ((f s).kernel.shell ≡ s.kernel.shell) × Quiet (rest s)

after-Good :
    (t u : Thread) (b : Shell) (line : List ℕ) → Quiet t → Good u b line → Good (after t u) b line
unfolding Good Quiet after
after-Good finished u b line q g = g
after-Good (panics m) u b line q g = absurd q
after-Good (act f rest) u b line q g = λ s out.
    let (e, same, r) = q (with_shell s b) in
    (
      e,
      subst (λ c. Good (after (rest (with_shell s b)) u) c line) (sym same)
          (after-Good (rest (with_shell s b)) u b line r g),
    )

if-Good :
    (c : Bool) (t u : Thread) (b : Shell) (line : List ℕ)
    → (c ≡ true → Good t b line)
    → (c ≡ false → Good u b line)
    → Good (if c then t else u) b line
if-Good true t u b line g h = g refl
if-Good false t u b line g h = h refl

-- The same test decides the line.
both_if-Good :
    (c : Bool) (t u : Thread) (b : Shell) (k l : List ℕ)
    → (c ≡ true → Good t b k)
    → (c ≡ false → Good u b l)
    → Good (if c then t else u) b (if c then k else l)
both_if-Good true t u b k l g h = g refl
both_if-Good false t u b k l g h = h refl

print_thread-Quiet : (ps : List (System → Printed)) → Quiet (print_thread ps)
unfolding Quiet print_thread
print_thread-Quiet [] = tt
print_thread-Quiet (p ∷ ps) = λ s. (refl, refl, print_thread-Quiet ps)

module _ (line_status : ℕ → ℕ) where
  log_thread-Quiet : (cs : List Call) → Quiet (log_thread line_status cs)
  unfolding Quiet log_thread
  log_thread-Quiet [] = tt
  log_thread-Quiet (c ∷ cs) = λ s. (refl, refl, log_thread-Quiet cs)

  command_thread-Quiet : (c : Command) (line : List ℕ) → Quiet (command_thread line_status c line)
  unfolding Quiet command_thread pmm_test_thread
  command_thread-Quiet no_command line = tt
  command_thread-Quiet help_command line = print_thread-Quiet _
  command_thread-Quiet clear_command line = λ s. (refl, refl, tt)
  command_thread-Quiet version_command line = print_thread-Quiet _
  command_thread-Quiet ticks_command line = print_thread-Quiet _
  command_thread-Quiet irq_command line = print_thread-Quiet _
  command_thread-Quiet input_command line = print_thread-Quiet _
  command_thread-Quiet mem_command line = λ s. (refl, refl, log_thread-Quiet _)
  command_thread-Quiet pmm_command line = λ s. (refl, refl, log_thread-Quiet _)
  command_thread-Quiet pmm_test_command line = λ s. (refl, refl, print_thread-Quiet _)
  command_thread-Quiet heap_command line = print_thread-Quiet _
  command_thread-Quiet paging_command line = λ s. (refl, refl, log_thread-Quiet _)
  command_thread-Quiet about_command line = print_thread-Quiet _
  command_thread-Quiet scroll_command line = print_thread-Quiet _
  command_thread-Quiet unknown_command line = print_thread-Quiet _

  newline-Good : (b : Shell) → Good (newline_thread line_status) b []
  unfolding Good newline_thread Quiet print_prompt
  newline-Good b = λ s out. (
    refl,
    λ s out. (
      refl,
      after-Good _ _ _ [] (λ s. (refl, refl, command_thread-Quiet _ _))
          (λ s out. (refl, λ s out. (refl, (reset_buffer-Holds _).0))),
    ),
  )

  module _ (b : Shell) (line : List ℕ) (v : Holds b line) where
    backspace-Good : Good (backspace_thread line_status) b (drop_last line)
    unfolding Good backspace_thread
    backspace-Good = λ s out. (
      refl,
      if-Good (ltb 0 b.buffer_length) _ _ b (drop_last line)
          (λ e. λ s out. (
            refl,
            λ s out. (
              refl,
              λ s out. (refl, (drop-Holds b line v (ground (arith, e, v.buffer_length))).0),
            ),
          ))
          (λ e. subst (Holds b) (sym (drop_last-nil line (ground (arith, e, v.buffer_length)))) v),
    )

    other-Good :
        (c : ℕ)
        → Good
            (other_thread line_status c)
            b
            (if leb 63 (length line) then line else line ++ (c ∷ []))
    unfolding Good other_thread print_prompt
    other-Good c = λ s out. (
      refl,
      if-Good (leb 63 b.buffer_length) _ _ b _
          (λ e. λ s out. (
            refl,
            λ s out. (
              refl,
              subst (Holds b)
                  (sym (pick_then (leb 63 (length line)) _ _ (ground (arith, e, v.buffer_length))))
                  v,
            ),
          ))
          (λ e. λ s out. (
            refl,
            λ s out. (
              refl,
              λ s out. (
                refl,
                subst (Holds _)
                    (sym
                      (pick_else (leb 63 (length line)) _ _ (ground (arith, e, v.buffer_length))))
                    (store-Holds b line v c (ground (arith, e, v.buffer_length))).0,
              ),
            ),
          )),
    )

    -- The steps of `shell_handle_character` make of the line what `edit` says, whatever interrupts change in between.
    pub character-Good : (c : ℕ) → Good (character_thread line_status c) b (edit c line)
    unfolding Good character_thread edit
    character-Good c = λ s out. (
      refl,
      if-Good (is_in_context s.interrupts) _ _ b _ (λ e. absurd (ground (arith, e, out)))
          (λ e.
            both_if-Good (c == 10) _ _ b _ _ (λ e. newline-Good b)
              (λ e.
                both_if-Good (c == 8) _ _ b _ _ (λ e. backspace-Good)
                  (λ e. both_if-Good (c == 9) _ _ b _ _ (λ e. v) (λ e. other-Good c)))),
    )

pub finish-Good :
    (line_status : ℕ → ℕ) (t : Thread) (s : System) (v : Model)
    → CoreStands (core s) v
    → Good t s.kernel.shell v.line
    → (r : System) × (finish line_status t s ≡ running r) × Stands r v
unfolding Good finish is_in_context
finish-Good line_status finished s v c g = (s, refl, record { core_stands = c; line = g })
finish-Good line_status (panics m) s v c g = absurd g
finish-Good line_status (act f rest) s v c g =
    let (e, h) = g s (ground (arith, c.depth)) in
    finish-Good line_status (rest s) (f s) v (subst (λ k. CoreStands k v) (sym e) c) h
