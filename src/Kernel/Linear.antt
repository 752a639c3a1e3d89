-- ===== src/Kernel/Linear.antt =====
-- Interrupts between the steps of a round do what interrupts between whole rounds do.
use wig_osx.Base.{ℕ, ◌≤◌, ◌≡◌, refl, sym, ap, ◌∙◌, subst, List, [], ◌∷◌, ◌++◌}
use wig_osx.Kernel.Good.{Good, finish-Good}
use wig_osx.Kernel.Model.{Model, CoreStands, Stands, model_step, model_run, model_run-◌++◌}
use wig_osx.Kernel.Preempt.{Moment, signal, forward, going, stopped, advance, run_moments}
use wig_osx.Kernel.{Event, interrupt, round}
use wig_osx.Shell.Thread.{Thread, finished, panics, act, finish}
use wig_osx.System.{System, running}
use wig_osx.Kernel.Midway.{
  Midway, Stands-Midway, depth-is_in_context, signal-Midway, finished-Midway,
}

-- Interrupts are those of the 16 lines.
abbrev pub SignalsArrive : List Moment → Type 0
SignalsArrive [] = Unit {0}
SignalsArrive (signal vector raw ∷ ms) = (32 ≤ vector) × (vector ≤ 47) × SignalsArrive ms
SignalsArrive (forward ∷ ms) = SignalsArrive ms

-- The interrupts, with rounds left out.
unfoldable pub signals : List Moment → List Event
signals [] = []
signals (signal vector raw ∷ ms) = interrupt vector raw ∷ signals ms
signals (forward ∷ ms) = signals ms

unfoldable pub interrupts : List Event → List Event
interrupts [] = []
interrupts (interrupt vector raw ∷ es) = interrupt vector raw ∷ interrupts es
interrupts (round ∷ es) = interrupts es

interrupts-◌++◌ : (es fs : List Event) → interrupts (es ++ fs) ≡ interrupts es ++ interrupts fs
unfolding interrupts
interrupts-◌++◌ [] fs = refl
interrupts-◌++◌ (interrupt vector raw ∷ es) fs =
    ap (λ l. interrupt vector raw ∷ l) (interrupts-◌++◌ es fs)
interrupts-◌++◌ (round ∷ es) fs = interrupts-◌++◌ es fs

pub first : (m : Moment) (ms : List Moment) → SignalsArrive (m ∷ ms) → SignalsArrive (m ∷ [])
first (signal vector raw) ms (lo, hi, _) = (lo, hi, tt)
first forward ms h = tt

pub others : (m : Moment) (ms : List Moment) → SignalsArrive (m ∷ ms) → SignalsArrive ms
others (signal vector raw) ms (_, _, h) = h
others forward ms h = h

signals-◌++◌ : (m : Moment) (ms : List Moment) → signals (m ∷ ms) ≡ signals (m ∷ []) ++ signals ms
unfolding signals
signals-◌++◌ (signal vector raw) ms = refl
signals-◌++◌ forward ms = refl

module _ (line_status : ℕ → ℕ) where
  -- What a step of the foreground does: nothing that the model sees, or what a round does.
  forward-Midway :
      (s : System) (t : Thread) (v : Model)
      → Midway s t v
      → (r : System) × (u : Thread) × (es : List Event) × (advance line_status forward s t
          ≡ going r u)
        × Midway r u (model_run es v)
        × (interrupts es ≡ [])
  unfolding advance model_run interrupts Good
  forward-Midway s finished v m =
      let (r, u, runs, next) =
        finished-Midway line_status s v (record { core_stands = m.core_stands; line = m.rest }) in
      (r, u, round ∷ [], runs, next, refl)
  forward-Midway s (panics message) v m = absurd m.rest
  forward-Midway s (act f rest) v m =
      let (e, next) = m.rest s (depth-is_in_context s v m.core_stands) in
      (
        f s,
        rest s,
        [],
        refl,
        record { core_stands = subst (λ k. CoreStands k v) (sym e) m.core_stands; rest = next },
        refl,
      )

  pub moment-Midway :
      (m : Moment) (s : System) (t : Thread) (v : Model)
      → Midway s t v
      → SignalsArrive (m ∷ [])
      → (r : System) × (u : Thread) × (es : List Event) × (advance line_status m s t ≡ going r u)
        × Midway r u (model_run es v)
        × (interrupts es ≡ signals (m ∷ []))
  unfolding model_run model_step interrupts signals
  moment-Midway forward s t v mid h = forward-Midway s t v mid
  moment-Midway (signal vector raw) s t v mid (lo, hi, _) =
      let (r, runs, next) = signal-Midway line_status raw vector s t v mid lo hi in
      (r, t, interrupt vector raw ∷ [], runs, next, refl)

  pub run_moments-Midway :
      (ms : List Moment) (s : System) (t : Thread) (v : Model)
      → Midway s t v
      → SignalsArrive ms
      → (r : System) × (u : Thread) × (es : List Event) × (run_moments line_status ms s t
          ≡ going r u)
        × Midway r u (model_run es v)
        × (interrupts es ≡ signals ms)
  unfolding run_moments model_run interrupts signals
  run_moments-Midway [] s t v mid h = (s, t, [], refl, mid, refl)
  run_moments-Midway (m ∷ ms) s t v mid h =
      let (r, u, es, runs, next, same) = moment-Midway m s t v mid (first m ms h) in
      let (a, b, fs, goes, last, equal) =
        run_moments-Midway ms r u (model_run es v) next (others m ms h) in
      (
        a,
        b,
        es ++ fs,
        ap (λ p. elim p [ going r u ↦ run_moments line_status ms r u | stopped r ↦ stopped r ]) runs
            ∙ goes,
        subst (Midway a b) (sym (model_run-◌++◌ es fs v)) last,
        rw (interrupts-◌++◌ es fs, same, equal, signals-◌++◌ m ms) refl,
      )

  -- A kernel at work that stands where the model does never panics, whatever interrupts of the 16 lines arrive, with
  -- whatever bytes of the keyboard, between any two steps of its foreground (a step is a call of the console or of the
  -- log, a write to the line buffer or to its length, a run of the self-test of the frames, or the part of a round with
  -- interrupts disabled). There are
  -- events, with the same interrupts in the same order and whole rounds between them, after which the model stands
  -- where the kernel does once it has finished what it has begun: an interrupt in the middle of a round does what it
  -- does before or after one.
  pub run-linear :
      (ms : List Moment) (s : System) (v : Model)
      → Stands s v
      → SignalsArrive ms
      → (t : System) × (rest : Thread) × (es : List Event) × (run_moments line_status ms s finished
          ≡ going t rest)
        × (interrupts es ≡ signals ms)
        × (r : System) × (finish line_status rest t ≡ running r)
        × Stands r (model_run es v)
  run-linear ms s v st h =
      let (t, rest, es, runs, mid, same) =
        run_moments-Midway ms s finished v (Stands-Midway s v st) h in
      let (r, ends, stands) =
        finish-Good line_status rest t (model_run es v) mid.core_stands mid.rest in
      (t, rest, es, runs, same, r, ends, stands)
