-- ===== src/Kernel/Midway.antt =====
-- In the middle of a round.
use wig_osx.Base.{
  ℕ, ◌-◌, ◌≤◌, ◌≡◌, sym, ap, ◌∙◌, subst, inl, inr, false, not, arith, ◌==◌, pick_then, pick_else,
  Bool-cases, Option,
}
use wig_osx.Input.Refine.{try_read-view}
use wig_osx.Input.{Input}
use wig_osx.Interrupts.{is_in_context}
use wig_osx.Kernel.Good.{Good, character-Good}
use wig_osx.Kernel.Interrupt.{interrupt-core, raise-line}
use wig_osx.Kernel.Model.{Model, Statics, core, CoreStands, Stands, raise, consume, model_step}
use wig_osx.Kernel.Preempt.{signal, forward, going, goes_on, begin_with, begin_round, advance}
use wig_osx.Kernel.{round}
use wig_osx.Kernel.Round.{idle_lem, fetched, consume-typed, fetched-core}
use wig_osx.Shell.Steps.{character_thread}
use wig_osx.Shell.Thread.{Thread, finished}
use wig_osx.System.{System, with_parts, disable_interrupts, enable_interrupts_and_halt}

-- In the middle of a round, the rest of which interrupts cannot disturb.
pub record Midway (s : System) (t : Thread) (v : Model) : Type 0 where
  pub core_stands : CoreStands (core s) v
  pub rest : Good t s.kernel.shell v.line

pub depth-is_in_context :
    (s : System) (v : Model) → CoreStands (core s) v → is_in_context s.interrupts ≡ false
unfolding is_in_context
depth-is_in_context s v c = ground (arith, c.depth)

-- A system that stands where the model does has nothing left to do.
pub Stands-Midway : (s : System) (v : Model) → Stands s v → Midway s finished v
unfolding Good
Stands-Midway s v st = record { core_stands = st.core_stands; rest = st.line }

module _ (line_status : ℕ → ℕ) where
  pub signal-Midway :
      (raw vector : ℕ) (s : System) (t : Thread) (v : Model)
      → Midway s t v
      → 32 ≤ vector
      → vector ≤ 47
      → (r : System) × (advance line_status (signal vector raw) s t ≡ going r t)
        × Midway r t (raise (vector - 32) raw v)
  unfolding advance
  signal-Midway raw vector s t v m lo hi =
      let (r, runs, c, same) = interrupt-core line_status raw vector s v m.core_stands lo hi in
      (
        r,
        ap (goes_on t) runs,
        record {
          core_stands = c;
          rest =
              subst (Good t r.kernel.shell) (sym (raise-line (vector - 32) raw v))
                (subst (λ (x : Statics). Good t x.shell v.line) (sym same) m.rest);
        },
      )

  -- A round begins.
  begin-Midway :
      (s : System) (v : Model)
      → Stands s v
      → (r : System) × (t : Thread) × (begin_round line_status s ≡ going r t)
        × Midway r t (consume v)
  unfolding begin_round begin_with is_in_context
  begin-Midway s v st =
      let c = st.core_stands in
      let out =
        pick_else (not (s.interrupts.interrupt_context_depth == 0)) _ _ (ground (arith, c.depth)) in
      let went = λ (e : Option (ℕ × Input)).
        begin_with line_status e (with_parts s (disable_interrupts s.kernel)) in
      elim (try_read-view s.kernel.input c.ring) [
        | inl (e, nil) ↦ (
          with_parts s (enable_interrupts_and_halt (disable_interrupts s.kernel)),
          finished,
          out ∙ ap went e,
          Stands-Midway _ _ (idle_lem s v st nil),
        )
        | inr (ascii, t, e, cons, d, valid) ↦ (
          fetched s t,
          character_thread line_status ascii,
          out ∙ ap went e,
          subst (Midway (fetched s t) (character_thread line_status ascii))
              (consume-typed s v ascii t st cons)
              (record {
                core_stands = fetched-core s v ascii t st d valid;
                rest = character-Good line_status s.kernel.shell v.line st.line ascii;
              }),
        )
      ]

  -- With nothing left to do the foreground begins the next round, or waits.
  pub finished-Midway :
      (s : System) (v : Model)
      → Stands s v
      → (r : System) × (u : Thread) × (advance line_status forward s finished ≡ going r u)
        × Midway r u (model_step round v)
  unfolding advance model_step
  finished-Midway s v st = elim (Bool-cases v.waiting) [
    | inl e ↦ (
      s,
      finished,
      pick_then s.kernel.cpu.waiting _ _ (st.core_stands.waiting ∙ e),
      subst (Midway s finished) (sym (pick_then v.waiting _ _ e)) (Stands-Midway s v st),
    )
    | inr e ↦
        let (r, u, runs, next) = begin-Midway s v st in
        (
          r,
          u,
          pick_else s.kernel.cpu.waiting _ _ (st.core_stands.waiting ∙ e) ∙ runs,
          subst (Midway r u) (sym (pick_else v.waiting _ _ e)) next,
        )
  ]
