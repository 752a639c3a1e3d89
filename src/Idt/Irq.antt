-- ===== src/Idt/Irq.antt =====
-- What a hardware interrupt changes.
use wig_osx.Base.{
  ℕ, ◌-◌, ◌≤◌, ◌≡◌, refl, ◌∙◌, ap, ◌||◌, Option, none, some, ◌++◌, arith, ltb, ◌==◌, if◌then◌else◌,
  uint32_max, List, [], ◌∷◌, leb, add32, pick_else,
}
use wig_osx.Idt.{Machine, returned, panicked, irq_handler, call_handler}
use wig_osx.Interrupts.{Interrupts, dispatch_irq, count_unhandled, increment_saturating, is_none}
use wig_osx.Pic.{Write, outb, send_eoi}
use wig_osx.Idt.Served.{served, else_cong, irq_handler-served}

-- A 32-bit counter after one more event: it stays at its maximum.
abbrev pub one_more : ℕ → ℕ
one_more c = if c == uint32_max then uint32_max else add32 c 1

one_more_lem : (c : ℕ) → increment_saturating c ≡ one_more c
unfolding increment_saturating
one_more_lem c = ground arith

module _ {H : Type 0} where
  -- The dispatcher after an interrupt on line `irq`: the line is counted, and an interrupt without a handler is
  -- counted as such.
  abbrev pub counted : Interrupts H → ℕ → Interrupts H
  counted s irq = record {
    irq_handlers = s.irq_handlers;
    irq_dispatch_counts = λ line.
        if irq == line then one_more (s.irq_dispatch_counts irq) else s.irq_dispatch_counts line;
    unhandled_irq_count =
        if is_none (s.irq_handlers irq)
        then one_more s.unhandled_irq_count
        else s.unhandled_irq_count;
    invalid_irq_count = s.invalid_irq_count;
    interrupt_context_depth = s.interrupt_context_depth;
  }

  count_unhandled-if :
      (h : Option H) (s : Interrupts H)
      → count_unhandled h s ≡ record s {
        unhandled_irq_count =
            if is_none h then one_more s.unhandled_irq_count else s.unhandled_irq_count;
      }
  unfolding count_unhandled
  count_unhandled-if none s =
      ap (λ (c : ℕ). record s { unhandled_irq_count = c }) (one_more_lem s.unhandled_irq_count)
  count_unhandled-if (some h) s = refl

  counted_lem :
      (s : Interrupts H) (irq : ℕ)
      → irq ≤ 15
      → dispatch_irq s irq ≡ (s.irq_handlers irq, counted s irq)
  unfolding dispatch_irq
  counted_lem s irq h =
      pick_else (leb 16 irq) _ _ (ground (arith, h))
      ∙ ap (λ (t : Interrupts H). (s.irq_handlers irq, t))
          (count_unhandled-if (s.irq_handlers irq) _
            ∙ ap
                (λ (c : ℕ). record (counted s irq) {
                  irq_dispatch_counts =
                      λ line. if irq == line then c else s.irq_dispatch_counts line;
                })
                (one_more_lem (s.irq_dispatch_counts irq)))

module _ {H K : Type 0} (call : H → K → K) where
  -- What the handler of a line does, when there is one.
  abbrev pub call_registered : Option H → K → K
  call_registered none k = k
  call_registered (some h) k = call h k

  call_registered_lem : (h : Option H) (k : K) → call_handler call h k ≡ call_registered h k
  unfolding call_handler
  call_registered_lem none k = refl
  call_registered_lem (some h) k = refl

  -- The machine after an interrupt on line `irq`, in terms of the tables, the ports and the calls.
  abbrev pub accounted : Machine H K → ℕ → Machine H K
  accounted m irq = record {
    interrupts = counted m.interrupts irq;
    writes =
        m.writes
        ++ (if leb 8 irq then outb 0xA0 0x20 ∷ (outb 0x20 0x20 ∷ []) else outb 0x20 0x20 ∷ []);
    kernel = call_registered (m.interrupts.irq_handlers irq) m.kernel;
  }

  accounted_lem : (m : Machine H K) (irq : ℕ) → irq ≤ 15 → served call m irq ≡ accounted m irq
  unfolding send_eoi
  accounted_lem m irq h =
      ap
        (λ (r : Option H × Interrupts H). record {
          interrupts = r.1;
          writes = m.writes ++ send_eoi irq;
          kernel = call_handler call r.0 m.kernel;
        })
        (counted_lem m.interrupts irq h)
      ∙ ap
          (λ (k : K). record {
            interrupts = counted m.interrupts irq;
            writes = m.writes ++ send_eoi irq;
            kernel = k;
          })
          (call_registered_lem (m.interrupts.irq_handlers irq) m.kernel)
      ∙ ap (λ (ws : List Write). record (accounted m irq) { writes = m.writes ++ ws })
          (pick_else (ltb 15 irq) _ _ (ground (arith, h)))

  -- `irq_handler` panics, with nothing changed, exactly for a missing frame, a vector outside 32 to 47, and a
  -- context depth at its maximum. Otherwise it returns with the handler of the line called once, if one is
  -- registered; the count of the line one higher, and the count of interrupts without a handler one higher
  -- if none is registered, where a count stays at its maximum; the command 0x20 written to the first interrupt controller, and
  -- before that to the second one for the lines from 8 on; and the handlers, the count of invalid
  -- lines and the depth as they were.
  pub irq_handler_lem :
      (m : Machine H K) (vector : ℕ)
      → m.interrupts.interrupt_context_depth ≤ uint32_max
      → (irq_handler call m none
          ≡ panicked "Hardware interrupt arrived without an interrupt frame" m)
        × (irq_handler call m (some vector) ≡ (
            if ltb vector 32 || ltb 47 vector
            then panicked "Invalid hardware interrupt vector" m
            else if m.interrupts.interrupt_context_depth == uint32_max
            then panicked "Hardware interrupt-context depth overflow" m
            else returned (accounted m (vector - 32))))
  irq_handler_lem m vector h =
      let (missing, given, depth) = irq_handler-served call m vector h in
      (
        missing,
        given
            ∙ else_cong _ (ltb vector 32 || ltb 47 vector) (λ e.
              ap
                (λ (n : Machine H K).
                  if m.interrupts.interrupt_context_depth == uint32_max
                  then panicked "Hardware interrupt-context depth overflow" m
                  else returned n)
                (accounted_lem m (vector - 32) (ground (arith, e)))),
      )
