-- ===== src/Kernel/Forward.antt =====
-- Left alone, the foreground finishes what it has begun and waits.
use wig_osx.Base.{
  ℕ, zero, suc, ◌+◌, ◌≡◌, refl, sym, ap, ◌∙◌, subst, true, false, not, ◌&&◌, List, [], ◌∷◌, ◌++◌,
  length, replicate, arith, ◌==◌,
}
use wig_osx.Kernel.Drain.{type_all, sleeps_on, drains, model_run-sleeps_on, pending, pending_lem}
use wig_osx.Kernel.Good.{finish-Good}
use wig_osx.Kernel.Linear.{SignalsArrive, signals, interrupts, run_moments-Midway}
use wig_osx.Kernel.Midway.{Midway, Stands-Midway, finished-Midway}
use wig_osx.Kernel.Model.{Model, Stands, model_step, model_run, model_run-◌++◌}
use wig_osx.Kernel.Preempt.{Moment, forward, Progress, going, stopped, advance, run_moments}
use wig_osx.Kernel.{Event, round}
use wig_osx.Shell.Line.{Holds}
use wig_osx.Shell.Thread.{Thread, finished, panics, act, finish}
use wig_osx.System.{System, Outcome, running, halted, kernel_panic}

IsRunning : Outcome → Type 0
IsRunning (running s) = Unit {0}
IsRunning (halted s) = ⊥

state : System → Outcome → System
state s (running t) = t
state s (halted t) = s

replicate_add {ℓ} :
    {A : Type ℓ} → (m n : ℕ) (x : A) → replicate (m + n) x ≡ replicate m x ++ replicate n x
replicate_add zero n x = ap (λ k. replicate k x) (omega arith)
replicate_add (suc m) n x =
    let e : suc m + n ≡ suc (m + n) = omega arith in
    ap (λ k. replicate k x) e ∙ ap (λ l. x ∷ l) (replicate_add m n x)

module _ (line_status : ℕ → ℕ) where
  abbrev go_on : List Moment → Progress → Progress
  go_on ms p = elim p [ going r u ↦ run_moments line_status ms r u | stopped r ↦ stopped r ]

  run_moments-◌++◌ :
      (ms ns : List Moment) (s : System) (t : Thread)
      → run_moments line_status (ms ++ ns) s t ≡ go_on ns (run_moments line_status ms s t)
  unfolding run_moments
  run_moments-◌++◌ [] ns s t = refl
  run_moments-◌++◌ (m ∷ ms) ns s t =
      elim (advance line_status m s t) as (λ p. go_on (ms ++ ns) p ≡ go_on ns (go_on ms p)) [
        | going r u ↦ run_moments-◌++◌ ms ns r u
        | stopped r ↦ refl
      ]

  joined :
      (ms ns : List Moment) (s r : System) (t u : Thread) (p : Progress)
      → run_moments line_status ms s t ≡ going r u
      → run_moments line_status ns r u ≡ p
      → run_moments line_status (ms ++ ns) s t ≡ p
  joined ms ns s r t u p e h = run_moments-◌++◌ ms ns s t ∙ ap (go_on ns) e ∙ h

  -- A thread that finishes does so in some number of steps.
  finish-forwards :
      (t : Thread) (s r : System)
      → finish line_status t s ≡ running r
      → (n : ℕ) × (run_moments line_status (replicate n forward) s t ≡ going r finished)
  unfolding finish run_moments advance kernel_panic state IsRunning
  finish-forwards finished s r e = (0, ap (λ o. going (state s o) finished) e)
  finish-forwards (panics m) s r e = absurd (subst IsRunning (sym e) tt)
  finish-forwards (act f rest) s r e = let (n, h) = finish-forwards (rest s) (f s) r e in (suc n, h)

  record Goes (s : System) (t : Thread) (v : Model) : Type 0 where
    n : ℕ
    next : System
    runs : run_moments line_status (replicate n forward) s t ≡ going next finished
    stands : Stands next v

  -- What is begun is finished.
  Midway-Goes : (s : System) (t : Thread) (v : Model) → Midway s t v → Goes s t v
  Midway-Goes s t v m =
      let (r, ends, stands) = finish-Good line_status t s v m.core_stands m.rest in
      let (n, runs) = finish-forwards t s r ends in
      record { n = n; next = r; runs = runs; stands = stands }

  -- One after the other.
  then-Goes :
      (s : System) (t : Thread) (v w : Model) (g : Goes s t v) → Goes g.next finished w → Goes s t w
  then-Goes s t v w g h = record {
    n = g.n + h.n;
    next = h.next;
    runs =
        ap (λ l. run_moments line_status l s t) (replicate_add g.n h.n forward)
        ∙ joined (replicate g.n forward) (replicate h.n forward) s g.next t finished
            (going h.next finished) g.runs h.runs;
    stands = h.stands;
  }

  round-Goes : (s : System) (v : Model) → Stands s v → Goes s finished (model_step round v)
  unfolding run_moments
  round-Goes s v st =
      let (r, u, runs, mid) = finished-Midway line_status s v st in
      let g = Midway-Goes r u (model_step round v) mid in
      record {
        n = suc g.n;
        next = g.next;
        runs = ap (go_on (replicate g.n forward)) runs ∙ g.runs;
        stands = g.stands;
      }

  rounds-Goes :
      (k : ℕ) (s : System) (v : Model)
      → Stands s v
      → Goes s finished (model_run (replicate k round) v)
  unfolding model_run run_moments
  rounds-Goes zero s v st = record { n = 0; next = s; runs = refl; stands = st }
  rounds-Goes (suc k) s v st =
      let g = round-Goes s v st in
      then-Goes s finished (model_step round v) _ g (rounds-Goes k g.next _ g.stands)

  -- From a kernel at work whose processor does not wait while characters are pending, after any interrupts of the 16
  -- lines between any steps of the foreground: again the processor does not wait while characters are pending; and
  -- some number of further steps, with no interrupt between them, finish what is begun, type all characters that are
  -- pending into the line, in order, leave none, and only then wait. The line is that of the model after events with
  -- the same interrupts.
  pub moments-drain :
      (ms : List Moment) (s : System) (v : Model)
      → Stands s v
      → SignalsArrive ms
      → sleeps_on v ≡ false
      → (t : System) × (rest : Thread) × (es : List Event) × (n : ℕ) × (u : System) × (run_moments
            line_status ms s finished
          ≡ going t rest)
        × (interrupts es ≡ signals ms)
        × ((t.kernel.cpu.waiting && not (pending t == 0)) ≡ false)
        × (run_moments line_status (ms ++ replicate n forward) s finished ≡ going u finished)
        × (pending u ≡ 0)
        × (u.kernel.cpu.waiting ≡ true)
        × Holds u.kernel.shell (type_all (model_run es v).queue.items (model_run es v).line)
  moments-drain ms s v st h awake =
      let (t, rest, es, runs, mid, same) =
        run_moments-Midway line_status ms s finished v (Stands-Midway s v st) h in
      let w = model_run es v in
      let sleeps = model_run-sleeps_on es v awake in
      let begun = Midway-Goes t rest w mid in
      let g =
        then-Goes t rest w _ begun
          (rounds-Goes (suc (length w.queue.items)) begun.next w begun.stands) in
      let done = drains w sleeps in
      (
        t,
        rest,
        es,
        g.n,
        g.next,
        runs,
        same,
        ground (arith, sleeps, mid.core_stands.waiting, pending_lem t w mid.core_stands),
        joined ms (replicate g.n forward) s t finished rest _ runs g.runs,
        sym (pending_lem g.next _ g.stands.core_stands) ∙ ap length done.items,
        g.stands.core_stands.waiting ∙ done.waits,
        subst (Holds g.next.kernel.shell) done.line_is g.stands.line,
      )
