-- ===== src/Interrupts/Tests.antt =====
-- Registering handlers on concrete lines.
use wig_osx.Base.{ℕ, ◌≡◌, true, false, ◌&&◌, ◌==◌, if◌then◌else◌, none, some}
use wig_osx.Interrupts.{Interrupts, register_irq, register_irq_lem}

-- Line 0 has a handler, named by a number.
abbrev timer_only : Interrupts ℕ
timer_only = record {
  irq_handlers = λ i. if i == 0 then some 10 else none;
  irq_dispatch_counts = λ i. 0;
  unhandled_irq_count = 0;
  invalid_irq_count = 0;
  interrupt_context_depth = 0;
}

register_irq_lem_example :
    ((register_irq timer_only 1 (some 20)).0 ≡ true)
    × (register_irq timer_only 1 none ≡ (false, timer_only))
    × ((line : ℕ)
        → (register_irq timer_only 1 (some 20)).1.irq_handlers line ≡ (
            if (register_irq timer_only 1 (some 20)).0 && 1 == line
            then some 20
            else timer_only.irq_handlers line))
    × ((register_irq timer_only 1 (some 20)).1.irq_dispatch_counts ≡ timer_only.irq_dispatch_counts)
    × ((register_irq timer_only 1 (some 20)).1.unhandled_irq_count ≡ 0)
    × ((register_irq timer_only 1 (some 20)).1.invalid_irq_count ≡ 0)
    × ((register_irq timer_only 1 (some 20)).1.interrupt_context_depth ≡ 0)
register_irq_lem_example = register_irq_lem timer_only 1 20
