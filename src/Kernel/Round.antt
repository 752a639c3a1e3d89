-- ===== src/Kernel/Round.antt =====
-- A round of the loop of the kernel at work.
use wig_osx.Base.{
  ℕ, ◌≡◌, refl, sym, ap, ◌∙◌, subst, inl, inr, Bool, true, false, not, List, [], ◌∷◌, arith, leb,
  ◌==◌, if◌then◌else◌, pick_then, pick_else, Bool-cases, length,
}
use wig_osx.Input.Refine.{IsValid, contents, try_read-view}
use wig_osx.Input.{Input}
use wig_osx.Interrupts.{is_in_context}
use wig_osx.Kernel.Model.{Model, core, CoreStands, Stands, consume, consume_from, model_step}
use wig_osx.Kernel.{round, step, work_on, work_run_once}
use wig_osx.Shell.Commands.{
  Command, run_command, no_command, help_command, clear_command, version_command, ticks_command,
  irq_command, input_command, mem_command, pmm_command, pmm_test_command, heap_command,
  paging_command, about_command, scroll_command, unknown_command,
}
use wig_osx.Shell.Line.{edit}
use wig_osx.Shell.Refine.{respond, with_shell, handle_character-Holds}
use wig_osx.Shell.{print_prompt, handle_character}
use wig_osx.System.{
  System, running, with_parts, disable_interrupts, enable_interrupts, enable_interrupts_and_halt,
}

pub idle_lem :
    (s : System) (v : Model)
    → Stands s v
    → contents s.kernel.input ≡ []
    → Stands (with_parts s (enable_interrupts_and_halt (disable_interrupts s.kernel))) (consume v)
unfolding consume consume_from
idle_lem s v st e =
    let c = st.core_stands in
    subst (λ w. Stands (with_parts s (enable_interrupts_and_halt (disable_interrupts s.kernel))) w)
      (ap (λ l. consume_from l v) (sym e ∙ ap (λ q. q.items) c.queue))
      (record {
        core_stands = record {
          handlers = c.handlers;
          depth = c.depth;
          enabled = refl;
          waiting = refl;
          ring = c.ring;
          queue = c.queue;
          keyboard = c.keyboard;
          ticks = c.ticks;
        };
        line = st.line;
      })

-- The state in which a character is handled.
abbrev pub fetched : System → Input → System
fetched s t = with_parts s (enable_interrupts (record (disable_interrupts s.kernel) { input = t }))

-- What the model makes of a character, with what is pending after it.
abbrev pub typed : ℕ → Input → Model → Model
typed ascii t v = record v {
  queue = record v.queue { items = contents t };
  line = edit ascii v.line;
}

pub consume-typed :
    (s : System) (v : Model) (ascii : ℕ) (t : Input)
    → Stands s v
    → contents s.kernel.input ≡ ascii ∷ contents t
    → typed ascii t v ≡ consume v
unfolding consume consume_from
consume-typed s v ascii t st e =
    ap (λ l. consume_from l v) (sym e ∙ ap (λ q. q.items) st.core_stands.queue)

pub fetched-core :
    (s : System) (v : Model) (ascii : ℕ) (t : Input)
    → Stands s v
    → t.dropped_character_count ≡ s.kernel.input.dropped_character_count
    → IsValid t
    → CoreStands (core (fetched s t)) (typed ascii t v)
fetched-core s v ascii t st d valid =
    let c = st.core_stands in
    record {
      handlers = c.handlers;
      depth = c.depth;
      enabled = refl;
      waiting = c.waiting;
      ring = valid;
      queue =
          ap (λ n. record { items = contents t; dropped = n }) (d ∙ ap (λ q. q.dropped) c.queue);
      keyboard = c.keyboard;
      ticks = c.ticks;
    }

module _ (line_status : ℕ → ℕ) where
  run_command-core :
      (c : Command) (line : List ℕ) (s : System) → core (run_command line_status c line s) ≡ core s
  unfolding run_command
  run_command-core no_command line s = refl
  run_command-core help_command line s = refl
  run_command-core clear_command line s = refl
  run_command-core version_command line s = refl
  run_command-core ticks_command line s = refl
  run_command-core irq_command line s = refl
  run_command-core input_command line s = refl
  run_command-core mem_command line s = refl
  run_command-core pmm_command line s = refl
  run_command-core pmm_test_command line s = refl
  run_command-core heap_command line s = refl
  run_command-core paging_command line s = refl
  run_command-core about_command line s = refl
  run_command-core scroll_command line s = refl
  run_command-core unknown_command line s = refl

  core_if :
      (b : Bool) (s t u : System)
      → core t ≡ core s
      → core u ≡ core s
      → core (if b then t else u) ≡ core s
  core_if true s t u h k = h
  core_if false s t u h k = k

  -- What a character does leaves the dispatcher, the processor, the keyboard, the queue and the ticks alone.
  respond-core : (c : ℕ) (line : List ℕ) (s : System) → core (respond line_status c line s) ≡ core s
  unfolding respond print_prompt
  respond-core c line s = core_if (c == 10) s _ _ (run_command-core _ _ _) (
      core_if (c == 8) s _ _ (core_if (length line == 0) s _ _ refl refl)
        (core_if (c == 9) s _ _ refl (core_if (leb 63 (length line)) s _ _ refl refl)))

  typed_lem :
      (s : System) (v : Model) (ascii : ℕ) (t : Input)
      → Stands s v
      → contents s.kernel.input ≡ ascii ∷ contents t
      → t.dropped_character_count ≡ s.kernel.input.dropped_character_count
      → IsValid t
      → (r : System) × (handle_character line_status (fetched s t) ascii ≡ running r)
        × Stands r (consume v)
  unfolding is_in_context
  typed_lem s v ascii t st e d valid =
      let f = fetched s t in
      let (next, ends, holds, _) =
        handle_character-Holds line_status v.line f st.line ascii
          (ground (arith, st.core_stands.depth)) in
      (
        with_shell (respond line_status ascii v.line f) next,
        ends,
        subst (Stands (with_shell (respond line_status ascii v.line f) next))
            (consume-typed s v ascii t st e)
            (record {
              core_stands =
                  subst (λ k. CoreStands k (typed ascii t v)) (sym (respond-core ascii v.line f))
                    (fetched-core s v ascii t st d valid);
              line = holds;
            }),
      )

  work_lem :
      (s : System) (v : Model)
      → Stands s v
      → (t : System) × (work_run_once line_status s ≡ running t) × Stands t (consume v)
  unfolding work_run_once is_in_context work_on
  work_lem s v st =
      let c = st.core_stands in
      let out =
        pick_else (not (s.interrupts.interrupt_context_depth == 0)) _ _ (ground (arith, c.depth)) in
      elim (try_read-view s.kernel.input c.ring) [
        | inl (e, nil) ↦ (
          with_parts s (enable_interrupts_and_halt (disable_interrupts s.kernel)),
          out ∙ ap (λ r. work_on line_status r (with_parts s (disable_interrupts s.kernel))) e,
          idle_lem s v st nil,
        )
        | inr (ascii, t, e, cons, d, valid) ↦
            let (r, ends, stands) = typed_lem s v ascii t st cons d valid in
            (
              r,
              out
                  ∙ ap (λ o. work_on line_status o (with_parts s (disable_interrupts s.kernel))) e
                  ∙ ends,
              stands,
            )
      ]

  -- A round of the loop does what the model says.
  pub round-Stands :
      (s : System) (v : Model)
      → Stands s v
      → (t : System) × (step line_status round s ≡ running t) × Stands t (model_step round v)
  unfolding step model_step
  round-Stands s v st = elim (Bool-cases v.waiting) [
    | inl e ↦ (
      s,
      pick_then s.kernel.cpu.waiting _ _ (st.core_stands.waiting ∙ e),
      subst (Stands s) (sym (pick_then v.waiting _ _ e)) st,
    )
    | inr e ↦
        let (t, ends, stands) = work_lem s v st in
        (
          t,
          pick_else s.kernel.cpu.waiting _ _ (st.core_stands.waiting ∙ e) ∙ ends,
          subst (Stands t) (sym (pick_else v.waiting _ _ e)) stands,
        )
  ]
