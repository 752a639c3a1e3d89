-- ===== src/Kernel/Life.antt =====
-- The kernel from its start on.
use wig_osx.Base.{ℕ, ◌≡◌, ap, ◌∙◌, Bool, true, some, List, arith}
use wig_osx.Kernel.Boot.{Platform, kernel_main}
use wig_osx.Kernel.Linear.{SignalsArrive, signals, interrupts, run-linear}
use wig_osx.Kernel.Model.{Model, Stands, model_run}
use wig_osx.Kernel.Preempt.{Moment, going, run_moments}
use wig_osx.Kernel.Refine.{AllArrive, run-Stands}
use wig_osx.Kernel.Start.{Booted, at_work, stopped, can_boot, fresh, kernel_main-Booted}
use wig_osx.Kernel.{Event, run}
use wig_osx.Multiboot.{IsBytes}
use wig_osx.Pmm.{Pmm}
use wig_osx.Shell.Thread.{Thread, finished, finish}
use wig_osx.System.{System, Outcome, running}

pub works :
    (b : Bool) (v : Model) (frames : Pmm) (o : Outcome)
    → b ≡ true
    → Booted b v frames o
    → (s : System) × (o ≡ running s) × Stands s v × (s.kernel.pmm ≡ frames)
works b v frames o e (at_work s h ends st same) = (s, ends, st, same)
works b v frames o e (stopped s h ends off) = absurd (ground (arith, e, h))

module _ (p : Platform) where
  -- If the magic number is the boot loader's, the address is not 0, and the memory map, the frames and the heap region
  -- are accepted, `kernel_main` reaches its loop, and from then on the kernel never panics, whatever interrupts of the 16
  -- lines arrive between the rounds, with whatever bytes of the keyboard: it stands where the model stands that
  -- began with an empty queue, an empty line and no ticks. What the serial port answers makes no difference.
  pub kernel_main-run :
      (magic address : ℕ) (s : System) (es : List Event)
      → IsBytes p.memory
      → can_boot p magic address s ≡ true
      → AllArrive es
      → (b : System) × (t : System) × (kernel_main p magic address s ≡ some (running b))
        × (run p.line_status es b ≡ running t)
        × Stands t (model_run es (fresh s))
  kernel_main-run magic address s es bytes accepts arrive =
      let (o, ends, booted) = kernel_main-Booted p magic address s bytes in
      let (b, is_running, st, _) = works _ _ _ o accepts booted in
      let (t, last, stands) = run-Stands p.line_status es b (fresh s) st arrive in
      (b, t, ends ∙ ap (λ q. some q) is_running, last, stands)

  -- If the magic number is the boot loader's, the address is not 0, and the memory map, the frames and the heap region
  -- are accepted, `kernel_main` reaches its loop, and from then on the kernel never panics, whatever interrupts of the 16
  -- lines arrive between any two steps of its foreground, with whatever bytes of the keyboard: once it has finished
  -- what it has begun it stands where the model stands that began with an empty queue, an empty line and no ticks, after
  -- the same interrupts with whole rounds between them.
  pub kernel_main-linear :
      (magic address : ℕ) (s : System) (ms : List Moment)
      → IsBytes p.memory
      → can_boot p magic address s ≡ true
      → SignalsArrive ms
      → (b : System) × (t : System) × (rest : Thread) × (es : List Event) × (kernel_main p magic
            address s
          ≡ some (running b))
        × (run_moments p.line_status ms b finished ≡ going t rest)
        × (interrupts es ≡ signals ms)
        × (r : System) × (finish p.line_status rest t ≡ running r)
        × Stands r (model_run es (fresh s))
  kernel_main-linear magic address s ms bytes accepts arrive =
      let (o, ends, booted) = kernel_main-Booted p magic address s bytes in
      let (b, is_running, st, _) = works _ _ _ o accepts booted in
      let (t, rest, es, runs, same, r, finishes, stands) =
        run-linear p.line_status ms b (fresh s) st arrive in
      (b, t, rest, es, ends ∙ ap (λ q. some q) is_running, runs, same, r, finishes, stands)
