-- ===== src/Kernel/Refine.antt =====
-- The kernel at work does what the model does, whatever arrives.
use wig_osx.Base.{ℕ, ◌≤◌, ◌≡◌, refl, ap, ◌∙◌, List, [], ◌∷◌}
use wig_osx.Kernel.Interrupt.{interrupt-Stands}
use wig_osx.Kernel.Model.{Model, Stands, model_step, model_run}
use wig_osx.Kernel.Round.{round-Stands}
use wig_osx.Kernel.{Event, interrupt, round, step, run}
use wig_osx.System.{System, running, halted}

-- Interrupts are those of the 16 lines.
abbrev pub Arrives : Event → Type 0
Arrives (interrupt vector raw) = (32 ≤ vector) × (vector ≤ 47)
Arrives round = Unit {0}

abbrev pub AllArrive : List Event → Type 0
AllArrive [] = Unit {0}
AllArrive (e ∷ es) = Arrives e × AllArrive es

module _ (line_status : ℕ → ℕ) where
  step-Stands :
      (e : Event) (s : System) (v : Model)
      → Stands s v
      → Arrives e
      → (t : System) × (step line_status e s ≡ running t) × Stands t (model_step e v)
  unfolding model_step
  step-Stands (interrupt vector raw) s v st (lo, hi) =
      interrupt-Stands line_status raw vector s v st lo hi
  step-Stands round s v st h = round-Stands line_status s v st

  -- A kernel at work that stands where the model does never panics, whatever interrupts of the 16 lines arrive between
  -- the rounds of its loop, with whatever bytes of the keyboard: it goes on, and stands where the model stands after
  -- the same events. In the model each character
  -- that a key gives is put behind those pending, or counted as turned away if 64 are, and is typed into the line
  -- once, in order.
  pub run-Stands :
      (es : List Event) (s : System) (v : Model)
      → Stands s v
      → AllArrive es
      → (t : System) × (run line_status es s ≡ running t) × Stands t (model_run es v)
  unfolding run model_run
  run-Stands [] s v st h = (s, refl, st)
  run-Stands (e ∷ es) s v st (h, hs) =
      let (t, ends, stands) = step-Stands e s v st h in
      let (u, rest, last) = run-Stands es t (model_step e v) stands hs in
      (
        u,
        ap (λ o. elim o [ running t ↦ run line_status es t | halted t ↦ halted t ]) ends ∙ rest,
        last,
      )
