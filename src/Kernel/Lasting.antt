-- ===== src/Kernel/Lasting.antt =====
-- What lasts as long as the kernel is at work.
use wig_osx.Base.{
  ℕ, ◌≡◌, refl, sym, ap, ◌∙◌, subst, Bool, true, false, List, [], ◌∷◌, Option, some, none,
  if◌then◌else◌,
}
use wig_osx.Input.{Input, try_read_character}
use wig_osx.Interrupts.{is_in_context}
use wig_osx.Kernel.Careful.{Settled, kept, Settled-trans, Careful, character-Careful}
use wig_osx.Kernel.Interrupt.{interrupt-core}
use wig_osx.Kernel.Linear.{moment-Midway, first, others, SignalsArrive}
use wig_osx.Kernel.Midway.{Midway, Stands-Midway}
use wig_osx.Kernel.Model.{Model, Stands, model_run}
use wig_osx.Kernel.Preempt.{
  Moment, signal, forward, Progress, going, stopped, goes_on, begin_with, begin_round, advance,
  run_moments,
}
use wig_osx.Pmm.Boot.{IsValid}
use wig_osx.Shell.Thread.{Thread, finished, panics, act}
use wig_osx.System.{System, Parts, kernel_panic, with_parts, disable_interrupts}

-- If the kernel goes on, everything has been kept, and the steps that are left keep it.
abbrev SettledTo : Parts → Progress → Type 0
SettledTo p (going r u) = Settled p r.kernel × Careful u
SettledTo p (stopped r) = Unit {0}

if-SettledTo :
    (p : Parts) (b : Bool) (x y : Progress)
    → SettledTo p x
    → SettledTo p y
    → SettledTo p (if b then x else y)
if-SettledTo p true x y h k = h
if-SettledTo p false x y h k = k

module _ (line_status : ℕ → ℕ) where
  begin_with-SettledTo :
      (e : Option (ℕ × Input)) (s : System)
      → IsValid s.kernel.pmm
      → SettledTo s.kernel (begin_with line_status e (with_parts s (disable_interrupts s.kernel)))
  unfolding begin_with Careful
  begin_with-SettledTo none s v = (kept s.kernel _ s.kernel.shell refl v, tt)
  begin_with-SettledTo (some (ascii, input)) s v =
      (kept s.kernel _ s.kernel.shell refl v, character-Careful line_status ascii)

  forward-SettledTo :
      (s : System) (t : Thread)
      → IsValid s.kernel.pmm
      → Careful t
      → SettledTo s.kernel (advance line_status forward s t)
  unfolding advance begin_round kernel_panic Careful
  forward-SettledTo s finished v c =
      if-SettledTo s.kernel s.kernel.cpu.waiting _ _ (kept s.kernel _ s.kernel.shell refl v, tt)
        (if-SettledTo s.kernel (is_in_context s.interrupts) _ _ tt
          (begin_with-SettledTo (try_read_character s.kernel.input false) s v))
  forward-SettledTo s (panics message) v c = tt
  forward-SettledTo s (act f rest) v c = let (e, next) = c s in (e v, next)

  moment-SettledTo :
      (m : Moment) (s : System) (t : Thread) (v : Model)
      → Midway s t v
      → SignalsArrive (m ∷ [])
      → IsValid s.kernel.pmm
      → Careful t
      → SettledTo s.kernel (advance line_status m s t)
  unfolding advance
  moment-SettledTo forward s t v mid h valid c = forward-SettledTo s t valid c
  moment-SettledTo (signal vector raw) s t v mid (lo, hi, _) valid c =
      let (r, runs, _, same) = interrupt-core line_status raw vector s v mid.core_stands lo hi in
      subst (SettledTo s.kernel) (sym (ap (goes_on t) runs))
        (kept s.kernel r.kernel s.kernel.shell same valid, c)

  run_moments-Settled :
      (ms : List Moment) (s : System) (t : Thread) (v : Model)
      → Midway s t v
      → SignalsArrive ms
      → IsValid s.kernel.pmm
      → Careful t
      → (r : System) × (u : Thread) × (run_moments line_status ms s t ≡ going r u)
        × Settled s.kernel r.kernel
  unfolding run_moments
  run_moments-Settled [] s t v mid h valid c =
      (s, t, refl, kept s.kernel s.kernel s.kernel.shell refl valid)
  run_moments-Settled (m ∷ ms) s t v mid h valid c =
      let (r, u, es, runs, next, _) = moment-Midway line_status m s t v mid (first m ms h) in
      let (here, careful) =
        subst (SettledTo s.kernel) runs (moment-SettledTo m s t v mid (first m ms h) valid c) in
      let (a, b, goes, there) =
        run_moments-Settled ms r u (model_run es v) next (others m ms h) here.frames.valid
          careful in
      (
        a,
        b,
        ap (λ p. elim p [ going r u ↦ run_moments line_status ms r u | stopped r ↦ stopped r ]) runs
            ∙ goes,
        Settled-trans s.kernel r.kernel a.kernel here there,
      )

  -- From a kernel at work whose frames are valid, after any interrupts of the 16 lines between any steps of the
  -- foreground, whatever commands the keys make up, the self-test of the frames among them: the frames are valid, the
  -- same number is free, and the same are in use and handed out; the memory map, the paging state, the heap region
  -- and both descriptor tables are what they were.
  pub moments-Settled :
      (ms : List Moment) (s : System) (v : Model)
      → Stands s v
      → SignalsArrive ms
      → IsValid s.kernel.pmm
      → (t : System) × (rest : Thread) × (run_moments line_status ms s finished ≡ going t rest)
        × Settled s.kernel t.kernel
  unfolding Careful
  moments-Settled ms s v st h valid =
      run_moments-Settled ms s finished v (Stands-Midway s v st) h valid tt
