-- ===== src/Kernel/Interrupt.antt =====
-- An interrupt that reaches the kernel at work.
use wig_osx.Base.{
  ℕ, ◌-◌, ◌≤◌, ◌≡◌, sym, ap, ◌∙◌, subst, not, ◌||◌, List, arith, ltb, ◌==◌, pick_else, uint32_max,
}
use wig_osx.Idt
use wig_osx.Idt.Served.{served, irq_handler-served}
use wig_osx.Idt.{Ended, returned, panicked, irq_handler}
use wig_osx.Interrupts.{Interrupts, dispatch_irq}
use wig_osx.Kernel.Model.{Model, Statics, statics, core, CoreStands, Stands, registered, raise}
use wig_osx.Kernel.{interrupt, step, wake, after_interrupt}
use wig_osx.Pic.{Write}
use wig_osx.Shell.Line.{Holds}
use wig_osx.System.{System, Parts, Handler, running, with_parts, call_handler}
use wig_osx.Kernel.Called.{dispatch_irq-handlers, called, called_lem}

pub raise-line : (irq raw : ℕ) (v : Model) → (raise irq raw v).line ≡ v.line
unfolding raise
raise-line irq raw v = ground arith

module _ (line_status : ℕ → ℕ) where
  -- What `irq_handler` returns, at work.
  arrives :
      (raw vector : ℕ) (s : System) (v : Model)
      → CoreStands (core s) v
      → 32 ≤ vector
      → vector ≤ 47
      → step line_status (interrupt vector raw) s
        ≡ running
            (served (call_handler line_status raw) (with_parts s (wake s.kernel)) (vector - 32))
  unfolding step
  arrives raw vector s v c lo hi =
      let m = with_parts s (wake s.kernel) in
      let (_, e, _) =
        irq_handler-served (call_handler line_status raw) m vector (omega (arith, c.depth)) in
      pick_else (not s.kernel.cpu.interrupts_enabled) _ _ (ap not c.enabled)
      ∙ ap (after_interrupt line_status) (
          e
          ∙ pick_else (ltb vector 32 || ltb 47 vector) _ _ (ground (arith, lo, hi))
          ∙ pick_else (s.interrupts.interrupt_context_depth == uint32_max) _ _
              (ground (arith, c.depth)))

  assemble :
      (s : System) (d : Interrupts Handler) (ws : List Write) (k l : Parts) (v : Model)
      → k ≡ l
      → CoreStands (core (with_parts s l)) v
      → ((irq : ℕ) → irq ≤ 15 → d.irq_handlers irq ≡ registered irq)
      → d.interrupt_context_depth ≡ 0
      → CoreStands (core (record { interrupts = d; writes = ws; kernel = k })) v
  assemble s d ws k l v e c handlers depth =
      subst (λ k. CoreStands (core (record { interrupts = d; writes = ws; kernel = k })) v) (sym e)
        (record {
          handlers = handlers;
          depth = depth;
          enabled = c.enabled;
          waiting = c.waiting;
          ring = c.ring;
          queue = c.queue;
          keyboard = c.keyboard;
          ticks = c.ticks;
        })

  -- An interrupt on one of the 16 lines is served, does what the model says, and leaves the shell, the frames and the tables alone.
  pub interrupt-core :
      (raw vector : ℕ) (s : System) (v : Model)
      → CoreStands (core s) v
      → 32 ≤ vector
      → vector ≤ 47
      → (t : System) × (step line_status (interrupt vector raw) s ≡ running t)
        × CoreStands (core t) (raise (vector - 32) raw v)
        × (statics t.kernel ≡ statics s.kernel)
  interrupt-core raw vector s v c lo hi =
      let irq = vector - 32 in
      let m = with_parts s (wake s.kernel) in
      let (found, same) = dispatch_irq-handlers s.interrupts irq (omega (arith, lo, hi)) in
      let (_, _, depth) =
        irq_handler-served (call_handler line_status raw) m vector (omega (arith, c.depth)) in
      let (next, same_statics) = called_lem line_status raw irq s v c in
      let runs =
        ap (λ h. Idt.call_handler (call_handler line_status raw) h (wake s.kernel))
          (found ∙ c.handlers irq (omega (arith, lo, hi))) in
      (
        served (call_handler line_status raw) m irq,
        arrives raw vector s v c lo hi,
        assemble s (dispatch_irq s.interrupts irq).1
            (served (call_handler line_status raw) m irq).writes
            (served (call_handler line_status raw) m irq).kernel
            (called line_status raw irq s).kernel (raise irq raw v) runs next
            (λ i le. ap (λ f. f i) same ∙ c.handlers i le) (depth ∙ c.depth),
        ap statics runs ∙ same_statics,
      )

  pub interrupt-Stands :
      (raw vector : ℕ) (s : System) (v : Model)
      → Stands s v
      → 32 ≤ vector
      → vector ≤ 47
      → (t : System) × (step line_status (interrupt vector raw) s ≡ running t)
        × Stands t (raise (vector - 32) raw v)
  interrupt-Stands raw vector s v st lo hi =
      let (t, runs, c, same) = interrupt-core raw vector s v st.core_stands lo hi in
      (
        t,
        runs,
        record {
          core_stands = c;
          line =
              subst (Holds t.kernel.shell) (sym (raise-line (vector - 32) raw v))
                (subst (λ (x : Statics). Holds x.shell v.line) (sym same) st.line);
        },
      )
