-- ===== src/Interrupts.antt =====
-- The interrupt dispatcher, src/kernel/interrupts.c. `H` is the type of handlers; a call of the handler
-- found is left to the caller (Kernel), which knows the state that handlers change.
mod Tests
use wig_osx.Base.{
  ℕ, ◌+◌, ◌-◌, ◌%◌, ◌≤◌, ◌<◌, ◌≡◌, refl, Bool, true, false, not, ◌&&◌, Option, none, some, arith,
  leb, ltb, ◌==◌, if◌then◌else◌, uint32_max, add32, update, Option-cases, inl, inr,
}

-- `IRQ_HANDLER_COUNT`.
abbrev pub irq_handler_count : ℕ
irq_handler_count = 16

-- The file's static variables. `none` is a `NULL` handler.
pub record Interrupts (H : Type 0) : Type 0 where
  pub irq_handlers : ℕ → Option H
  pub irq_dispatch_counts : ℕ → ℕ
  pub unhandled_irq_count : ℕ
  pub invalid_irq_count : ℕ
  pub interrupt_context_depth : ℕ

unfoldable pub increment_saturating : ℕ → ℕ
increment_saturating counter = if counter == uint32_max then counter else add32 counter 1

module _ {H : Type 0} where
  -- The loop over the 16 lines, and the three counters.
  unfoldable pub initialize : Interrupts H → Interrupts H
  initialize s = record {
    irq_handlers = λ irq. if ltb irq irq_handler_count then none else s.irq_handlers irq;
    irq_dispatch_counts = λ irq. if ltb irq irq_handler_count then 0 else s.irq_dispatch_counts irq;
    unhandled_irq_count = 0;
    invalid_irq_count = 0;
    interrupt_context_depth = 0;
  }

  abbrev pub is_none : Option H → Bool
  is_none none = true
  is_none (some h) = false

  unfoldable pub register_irq : Interrupts H → ℕ → Option H → Bool × Interrupts H
  register_irq s irq handler =
      if leb irq_handler_count irq
      then (false, s)
      else if is_none handler
      then (false, s)
      else if not (is_none (s.irq_handlers irq))
      then (false, s)
      else (true, record s { irq_handlers = update s.irq_handlers irq handler })

  unfoldable pub context_enter : Interrupts H → Bool × Interrupts H
  context_enter s =
      if s.interrupt_context_depth == uint32_max
      then (false, s)
      else (true, record s { interrupt_context_depth = add32 s.interrupt_context_depth 1 })

  unfoldable pub context_exit : Interrupts H → Bool × Interrupts H
  context_exit s =
      if s.interrupt_context_depth == 0
      then (false, s)
      else (true, record s { interrupt_context_depth = s.interrupt_context_depth - 1 })

  unfoldable pub is_in_context : Interrupts H → Bool
  is_in_context s = not (s.interrupt_context_depth == 0)

  -- A line without a handler is counted once more.
  unfoldable pub count_unhandled : Option H → Interrupts H → Interrupts H
  unfolding increment_saturating
  count_unhandled none s = record s {
    unhandled_irq_count = increment_saturating s.unhandled_irq_count;
  }
  count_unhandled (some h) s = s

  -- `interrupts_dispatch_irq`: the handler to call, if any, and the state before that call.
  unfoldable pub dispatch_irq : Interrupts H → ℕ → Option H × Interrupts H
  unfolding increment_saturating count_unhandled
  dispatch_irq s irq =
      if leb irq_handler_count irq
      then (none, record s { invalid_irq_count = increment_saturating s.invalid_irq_count })
      else let handler = s.irq_handlers irq in
        (
          handler,
          count_unhandled handler (record s {
            irq_dispatch_counts =
                update s.irq_dispatch_counts irq (increment_saturating (s.irq_dispatch_counts irq));
          }),
        )

  unfoldable pub get_irq_count : Interrupts H → ℕ → ℕ
  get_irq_count s irq = if leb irq_handler_count irq then 0 else s.irq_dispatch_counts irq

  -- `interrupts_register_irq` takes a line once: it succeeds exactly on one of the 16 lines, with a
  -- handler, where none is registered; then that line alone has the handler. Otherwise no handler changes, and
  -- either way the counters and the context depth stay as they were; without a handler the call changes nothing.
  pub register_irq_lem :
      (s : Interrupts H) (irq : ℕ) (h : H)
      → ((register_irq s irq (some h)).0
          ≡ (ltb irq irq_handler_count && is_none (s.irq_handlers irq)))
        × ((register_irq s irq none) ≡ (false, s))
        × ((line : ℕ)
            → (register_irq s irq (some h)).1.irq_handlers line ≡ (
                if (register_irq s irq (some h)).0 && irq == line
                then some h
                else s.irq_handlers line))
        × ((register_irq s irq (some h)).1.irq_dispatch_counts ≡ s.irq_dispatch_counts)
        × ((register_irq s irq (some h)).1.unhandled_irq_count ≡ s.unhandled_irq_count)
        × ((register_irq s irq (some h)).1.invalid_irq_count ≡ s.invalid_irq_count)
        × ((register_irq s irq (some h)).1.interrupt_context_depth ≡ s.interrupt_context_depth)
  unfolding register_irq
  register_irq_lem s irq h = (
    ground arith,
    ground arith,
    λ line. ground arith,
    ground arith,
    ground arith,
    ground arith,
    ground arith,
  )
