-- ===== src/Idt/Served.antt =====
-- The entry of hardware interrupts, in terms of the dispatcher.
use wig_osx.Base.{
  ℕ, ◌+◌, ◌-◌, ◌≤◌, ◌<◌, ◌≡◌, refl, sym, ◌∙◌, ap, inl, inr, Bool, true, false, ◌||◌, Option, none,
  some, ◌++◌, arith, ltb, ◌==◌, if◌then◌else◌, uint32_max, Bool-cases,
}
use wig_osx.Idt.{Machine, returned, panicked, irq_handler, serve, leave, dispatch, call_handler}
use wig_osx.Interrupts.{Interrupts, context_enter, context_exit, dispatch_irq, count_unhandled}
use wig_osx.Pic.{send_eoi}

module _ {H : Type 0} where
  abbrev deep : ℕ → Interrupts H → Interrupts H
  deep d s = record s { interrupt_context_depth = d }

  count_unhandled-deep :
      (h : Option H) (d : ℕ) (s : Interrupts H)
      → count_unhandled h (deep d s) ≡ deep d (count_unhandled h s)
  unfolding count_unhandled
  count_unhandled-deep none d s = refl
  count_unhandled-deep (some h) d s = refl

  -- The dispatcher works the same at any depth, and keeps it.
  dispatch_irq-deep :
      (d irq : ℕ) (s : Interrupts H)
      → dispatch_irq (deep d s) irq ≡ ((dispatch_irq s irq).0, deep d (dispatch_irq s irq).1)
  unfolding dispatch_irq
  dispatch_irq-deep d irq s = ground (arith, count_unhandled-deep (s.irq_handlers irq) d)

  dispatch_irq-depth :
      (irq : ℕ) (s : Interrupts H)
      → (dispatch_irq s irq).1.interrupt_context_depth ≡ s.interrupt_context_depth
  dispatch_irq-depth irq s =
      ap (λ (r : Option H × Interrupts H). r.1.interrupt_context_depth)
        (dispatch_irq-deep s.interrupt_context_depth irq s)

  enter_lem :
      (s : Interrupts H)
      → s.interrupt_context_depth < uint32_max
      → context_enter s ≡ (true, deep (s.interrupt_context_depth + 1) s)
  unfolding context_enter
  enter_lem s h = ground arith

  full_lem :
      (s : Interrupts H) → s.interrupt_context_depth ≡ uint32_max → context_enter s ≡ (false, s)
  unfolding context_enter
  full_lem s h = ground arith

  exit_lem : (d : ℕ) (s : Interrupts H) → context_exit (deep (d + 1) s) ≡ (true, deep d s)
  unfolding context_exit
  exit_lem d s = ground arith

pub else_cong :
    {A : Type 0} (x : A) {y z : A} (b : Bool)
    → (b ≡ false → y ≡ z)
    → (if b then x else y) ≡ (if b then x else z)
else_cong x true h = refl
else_cong x false h = h refl

module _ {H K : Type 0} (call : H → K → K) where
  -- The machine after line `irq` was served at the depth at which it arrived.
  abbrev pub served : Machine H K → ℕ → Machine H K
  served m irq =
      let found = dispatch_irq m.interrupts irq in
      record {
        interrupts = found.1;
        writes = m.writes ++ send_eoi irq;
        kernel = call_handler call found.0 m.kernel;
      }

  serve_lem :
      (m : Machine H K) (irq : ℕ)
      → m.interrupts.interrupt_context_depth < uint32_max
      → serve call (context_enter m.interrupts) m irq ≡ returned (served m irq)
  unfolding serve leave dispatch
  serve_lem m irq d =
      let depth = m.interrupts.interrupt_context_depth in
      rw
        (
          enter_lem m.interrupts d,
          dispatch_irq-deep (depth + 1) irq m.interrupts,
          exit_lem depth (dispatch_irq m.interrupts irq).1,
        )
        (ap
          (λ (e : ℕ). returned (record {
            interrupts = deep e (dispatch_irq m.interrupts irq).1;
            writes = m.writes ++ send_eoi irq;
            kernel = call_handler call (dispatch_irq m.interrupts irq).0 m.kernel;
          }))
          (sym (dispatch_irq-depth irq m.interrupts)))

  serve_full :
      (m : Machine H K) (irq : ℕ)
      → m.interrupts.interrupt_context_depth ≡ uint32_max
      → serve call (context_enter m.interrupts) m irq
        ≡ panicked "Hardware interrupt-context depth overflow" m
  unfolding serve
  serve_full m irq d = rw (full_lem m.interrupts d) refl

  serve_cases :
      (m : Machine H K) (irq : ℕ)
      → m.interrupts.interrupt_context_depth ≤ uint32_max
      → serve call (context_enter m.interrupts) m irq ≡ (
          if m.interrupts.interrupt_context_depth == uint32_max
          then panicked "Hardware interrupt-context depth overflow" m
          else returned (served m irq))
  serve_cases m irq h = elim (Bool-cases (m.interrupts.interrupt_context_depth == uint32_max)) [
    | inl e ↦ serve_full m irq (ground (arith, e)) ∙ rw e refl
    | inr e ↦ serve_lem m irq (ground (arith, e)) ∙ rw e refl
  ]

  -- `irq_handler` in terms of the dispatcher and of `send_eoi`.
  pub irq_handler-served :
      (m : Machine H K) (vector : ℕ)
      → m.interrupts.interrupt_context_depth ≤ uint32_max
      → (irq_handler call m none
          ≡ panicked "Hardware interrupt arrived without an interrupt frame" m)
        × (irq_handler call m (some vector) ≡ (
            if ltb vector 32 || ltb 47 vector
            then panicked "Invalid hardware interrupt vector" m
            else if m.interrupts.interrupt_context_depth == uint32_max
            then panicked "Hardware interrupt-context depth overflow" m
            else returned (served m (vector - 32))))
        × ((dispatch_irq m.interrupts (vector - 32)).1.interrupt_context_depth
            ≡ m.interrupts.interrupt_context_depth)
  unfolding irq_handler
  irq_handler-served m vector h = (
    refl,
    else_cong _ (ltb vector 32 || ltb 47 vector) (λ e.
        ap (λ irq. serve call (context_enter m.interrupts) m irq) {y = vector - 32}
          (ground (arith, e))
        ∙ serve_cases m (vector - 32) h),
    dispatch_irq-depth (vector - 32) m.interrupts,
  )
