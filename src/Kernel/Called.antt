-- ===== src/Kernel/Called.antt =====
-- What the handlers that interrupts call do to the kernel at work.
use wig_osx.Base.{
  ℕ, zero, suc, ◌≤◌, ◌≡◌, refl, sym, ap, ◌∙◌, subst, false, Option, none, some, List, [], ◌∷◌,
  arith, leb, ◌==◌, pick_else,
}
use Prim.Native.String.{String}
use wig_osx.Idt
use wig_osx.Idt.{Ended, returned, panicked, irq_handler}
use wig_osx.Input.Typing.{deliver_lem, handle_keyboard_interrupt, offer}
use wig_osx.Input.Refine.{view}
use wig_osx.Interrupts.{Interrupts, dispatch_irq, count_unhandled}
use wig_osx.Kernel.Model.{Model, statics, core, CoreStands, registered, raise}
use wig_osx.Kernel.{wake}
use wig_osx.Keyboard.{handle_interrupt}
use wig_osx.Pit
use wig_osx.System.{System, Parts, Handler, with_parts, call_handler, write_serial}

count_unhandled-handlers :
    (h : Option Handler) (s : Interrupts Handler)
    → (count_unhandled h s).irq_handlers ≡ s.irq_handlers
unfolding count_unhandled
count_unhandled-handlers none s = refl
count_unhandled-handlers (some h) s = refl

pub dispatch_irq-handlers :
    (s : Interrupts Handler) (irq : ℕ)
    → irq ≤ 15
    → ((dispatch_irq s irq).0 ≡ s.irq_handlers irq)
      × ((dispatch_irq s irq).1.irq_handlers ≡ s.irq_handlers)
unfolding dispatch_irq
dispatch_irq-handlers s irq h =
    let out = pick_else (leb 16 irq) _ _ (ground (arith, h)) in
    (
      ap (λ (r : Option Handler × Interrupts Handler). r.0) out,
      ap (λ (r : Option Handler × Interrupts Handler). r.1.irq_handlers) out
          ∙ count_unhandled-handlers (s.irq_handlers irq) _,
    )

module _ (line_status : ℕ → ℕ) where
  write_serial-core :
      (ms : List String) (s : System) (p : Parts)
      → (core (with_parts s (write_serial line_status ms p)) ≡ core (with_parts s p))
        × (statics (write_serial line_status ms p) ≡ statics p)
  unfolding write_serial
  write_serial-core [] s p = (refl, refl)
  write_serial-core (m ∷ ms) s p = write_serial-core ms s _

  -- The state after the handler of a line.
  abbrev pub called : ℕ → ℕ → System → System
  called raw irq s =
      with_parts s
        (Idt.call_handler (call_handler line_status raw) (registered irq) (wake s.kernel))

  pit_lem :
      (raw : ℕ) (s : System) (v : Model)
      → CoreStands (core s) v
      → CoreStands (core (called raw 0 s)) (raise 0 raw v)
        × (statics (called raw 0 s).kernel ≡ statics s.kernel)
  unfolding Idt.call_handler call_handler raise Pit.handle_interrupt
  pit_lem raw s v c =
      let next : Parts = record (wake s.kernel) {
        ticks = (Pit.handle_interrupt s.kernel.ticks).0;
      } in
      let (e, sh) = write_serial-core (Pit.handle_interrupt s.kernel.ticks).1 s next in
      (
        subst (λ k. CoreStands k (raise 0 raw v)) (sym e)
            (record {
              handlers = c.handlers;
              depth = c.depth;
              enabled = c.enabled;
              waiting = refl;
              ring = c.ring;
              queue = c.queue;
              keyboard = c.keyboard;
              ticks = ap (λ t. (Pit.handle_interrupt t).0) c.ticks;
            }),
        sh,
      )

  keyboard_lem :
      (raw : ℕ) (s : System) (v : Model)
      → CoreStands (core s) v
      → CoreStands (core (called raw 1 s)) (raise 1 raw v)
        × (statics (called raw 1 s).kernel ≡ statics s.kernel)
  unfolding Idt.call_handler call_handler raise handle_keyboard_interrupt
  keyboard_lem raw s v c =
      let (e, w) = deliver_lem (handle_interrupt s.kernel.keyboard raw).0 s.kernel.input c.ring in
      (
        record {
          handlers = c.handlers;
          depth = c.depth;
          enabled = c.enabled;
          waiting = refl;
          ring = w;
          queue =
              e
              ∙ ap (λ k. offer (handle_interrupt k raw).0 (view s.kernel.input)) c.keyboard
              ∙ ap (offer (handle_interrupt v.keyboard raw).0) c.queue;
          keyboard = ap (λ k. (handle_interrupt k raw).1) c.keyboard;
          ticks = c.ticks;
        },
        refl,
      )

  other_line :
      (raw irq : ℕ) (s : System) (v : Model)
      → (irq == 0) ≡ false
      → (irq == 1) ≡ false
      → CoreStands (core s) v
      → CoreStands (core (called raw irq s)) (raise irq raw v)
        × (statics (called raw irq s).kernel ≡ statics s.kernel)
  unfolding Idt.call_handler raise
  other_line raw irq s v e0 e1 c =
      rw (e0, e1)
        (
          record {
            handlers = c.handlers;
            depth = c.depth;
            enabled = c.enabled;
            waiting = refl;
            ring = c.ring;
            queue = c.queue;
            keyboard = c.keyboard;
            ticks = c.ticks;
          },
          refl,
        )

  pub called_lem :
      (raw irq : ℕ) (s : System) (v : Model)
      → CoreStands (core s) v
      → CoreStands (core (called raw irq s)) (raise irq raw v)
        × (statics (called raw irq s).kernel ≡ statics s.kernel)
  called_lem raw zero s v c = pit_lem raw s v c
  called_lem raw (suc zero) s v c = keyboard_lem raw s v c
  called_lem raw (suc (suc n)) s v c =
      other_line raw (suc (suc n)) s v (ground arith) (ground arith) c
