-- ===== src/Kernel/Tests.antt =====
-- A concrete kernel at work, and a concrete start.
use wig_osx.Base.{
  ℕ, ap, ◌∙◌, ◌+◌, ◌≡◌, refl, true, false, not, ◌&&◌, some, List, [], ◌∷◌, ◌++◌, replicate, arith,
  ◌==◌,
}
use wig_osx.Kernel.Boot.{Platform, kernel_main}
use wig_osx.Kernel.Drain.{pending, type_all}
use wig_osx.Kernel.Life.{kernel_main-linear}
use wig_osx.Kernel.Model.{Model, Stands, model_run}
use wig_osx.Kernel.Forward.{moments-drain}
use wig_osx.Kernel.Careful.{Settled}
use wig_osx.Kernel.Lasting.{moments-Settled}
use wig_osx.Kernel.Frames.{Fresh, kernel_main-Fresh}
use wig_osx.Kernel.Linear.{interrupts, signals, run-linear}
use wig_osx.Kernel.Preempt.{Moment, signal, forward, going, run_moments}
use wig_osx.Heap
use wig_osx.Pmm.Tests.{small, small-IsValid}
use wig_osx.Pmm.Loaded.Tests.{layout, layout-LayoutFits, loads, boots}
use wig_osx.Status.{Status, kernel_status_is_ok}
use wig_osx.Kernel.Start.{parts_ok, Booted, can_boot, fresh, first_frames, kernel_main-Booted}
use wig_osx.Kernel.{Event}
use wig_osx.Memory
use wig_osx.Memory.Tests.{boot_memory, boot_memory-IsBytes}
use wig_osx.Shell.Line.{Holds}
use wig_osx.Shell.Tests.{working, typed-Holds}
use wig_osx.Shell.Thread.{Thread, finished, finish}
use wig_osx.System.{System, Outcome, running}

-- One character is pending, and the line holds `pmm`.
abbrev start : Model
start = record {
  queue = record { items = 95 ∷ []; dropped = 0 };
  keyboard = record { shift_pressed = false; caps_lock_enabled = false };
  ticks = 41;
  line = 112 ∷ (109 ∷ (109 ∷ []));
  waiting = false;
}

working-Stands : Stands working start
working-Stands = record {
  core_stands = record {
    handlers = λ irq le. refl;
    depth = refl;
    enabled = refl;
    waiting = refl;
    ring = record {
      head = omega arith;
      tail = omega arith;
      fits = omega arith;
      dropped = omega arith;
    };
    queue = refl;
    keyboard = refl;
    ticks = refl;
  };
  line = typed-Holds;
}

-- A round begins on the character that is pending, and the key `a` and the timer interrupt it.
abbrev moments : List Moment
moments = forward ∷ (forward ∷ (signal 33 0x1E ∷ (forward ∷ (signal 32 0 ∷ (forward ∷ [])))))

run-linear_example :
    (t : System) × (rest : Thread) × (es : List Event) × (run_moments
        (λ n. 0)
        moments
        working
        finished
      ≡ going t rest)
    × (interrupts es ≡ signals moments)
    × (r : System) × (finish (λ n. 0) rest t ≡ running r)
    × Stands r (model_run es start)
run-linear_example = run-linear (λ n. 0) moments working start working-Stands (omega arith)

moments-drain_example :
    (t : System) × (rest : Thread) × (es : List Event) × (n : ℕ) × (u : System) × (run_moments
        (λ n. 0)
        moments
        working
        finished
      ≡ going t rest)
    × (interrupts es ≡ signals moments)
    × ((t.kernel.cpu.waiting && not (pending t == 0)) ≡ false)
    × (run_moments (λ n. 0) (moments ++ replicate n forward) working finished ≡ going u finished)
    × (pending u ≡ 0)
    × (u.kernel.cpu.waiting ≡ true)
    × Holds u.kernel.shell (type_all (model_run es start).queue.items (model_run es start).line)
moments-drain_example =
    moments-drain (λ n. 0) moments working start working-Stands (omega arith) refl

-- With four frames, of which the first is in use.
abbrev with_frames : System
with_frames = record working { kernel = record working.kernel { pmm = small } }

moments-Settled_example :
    (t : System) × (rest : Thread) × (run_moments (λ n. 0) moments with_frames finished
      ≡ going t rest)
    × Settled with_frames.kernel t.kernel
moments-Settled_example =
    moments-Settled (λ n. 0) moments with_frames start
      (record { core_stands = working-Stands.core_stands; line = working-Stands.line })
      (omega arith) small-IsValid

abbrev platform : Platform
platform = record {
  memory = boot_memory;
  layout = layout;
  heap_start = 0x180000;
  heap_end = 0x190000;
  page_directory = 0x110000;
  page_tables = λ i. 0x111000 + i;
  isr = λ i. 0x101000 + i;
  irq = λ i. 0x102000 + i;
  line_status = λ n. 0x20;
  masks = λ n. 255;
}

kernel_main-Booted_example :
    (o : Outcome) × (kernel_main platform 0x2BADB002 100 working ≡ some o)
    × Booted
        (can_boot platform 0x2BADB002 100 working)
        (fresh working)
        (first_frames platform 100 working (Memory.initialize boot_memory 100))
        o
kernel_main-Booted_example = kernel_main-Booted platform 0x2BADB002 100 working boot_memory-IsBytes

-- The platform and the boot information are accepted.
accepted : can_boot platform 0x2BADB002 100 working ≡ true
unfolding Heap.initialize
accepted =
    ap (parts_ok platform 100 working) loads
    ∙ ap
        (λ (status : Status).
          kernel_status_is_ok status
          && kernel_status_is_ok (Heap.initialize 0x180000 0x190000 working.kernel.heap).0)
        boots

kernel_main-linear_example :
    (b : System) × (t : System) × (rest : Thread) × (es : List Event) × (kernel_main platform
        0x2BADB002 100 working
      ≡ some (running b))
    × (run_moments (λ n. 0x20) moments b finished ≡ going t rest)
    × (interrupts es ≡ signals moments)
    × (r : System) × (finish (λ n. 0x20) rest t ≡ running r)
    × Stands r (model_run es (fresh working))
kernel_main-linear_example =
    kernel_main-linear platform 0x2BADB002 100 working moments boot_memory-IsBytes accepted
      (omega arith)

kernel_main-Fresh_example :
    (b : System) × (t : System) × (rest : Thread) × (kernel_main platform 0x2BADB002 100 working
      ≡ some (running b))
    × (run_moments (λ n. 0x20) moments b finished ≡ going t rest)
    × Fresh platform 100 256 t.kernel.pmm
kernel_main-Fresh_example =
    kernel_main-Fresh platform 0x2BADB002 100 256 working moments boot_memory-IsBytes
      layout-LayoutFits (omega arith) (omega arith) accepted (omega arith)
