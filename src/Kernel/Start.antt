-- ===== src/Kernel/Start.antt =====
-- How the start of the kernel ends.
use wig_osx.Base.{
  ℕ, ◌≡◌, refl, sym, ap, ◌∙◌, subst, inl, inr, Bool, true, false, not, ◌&&◌, Option, none, some, [],
  ◌∷◌, arith, ◌==◌, Bool-cases,
}
use Prim.Native.String.{String}
use wig_osx.Heap
use wig_osx.Input.Refine.{initialize-view}
use wig_osx.Interrupts
use wig_osx.Kernel.Boot.{
  Platform, require, start_serving, start_handlers, start_interrupts, start_heap, start_paging,
  warn, announce, start_frames, with_memory, start_memory, start_log, kernel_main, multiboot_magic,
}
use wig_osx.Kernel.Model.{Model, Stands}
use wig_osx.Memory
use wig_osx.Memory.Start.{initialize-Started}
use wig_osx.Memory.{Memory}
use wig_osx.Multiboot.{IsBytes}
use wig_osx.Pic
use wig_osx.Pit
use wig_osx.Pmm
use wig_osx.Pmm.{Pmm}
use wig_osx.Shell
use wig_osx.Shell.Line.{reset_buffer-Holds}
use wig_osx.Status.{
  Status, kernel_status_is_ok, ok, invalid_argument, not_ready, unavailable, malformed_data,
  out_of_memory, hardware_failure, already_initialized,
}
use wig_osx.Base.Text.{text}
use wig_osx.Log
use wig_osx.Log.{Log, say, put}
use wig_osx.Version.{version_string}
use wig_osx.System.{
  System, Outcome, running, halted, with_parts, on_console, emit, kernel_panic, disable_interrupts,
}
use wig_osx.Console
use wig_osx.Vmm.{initialize-enabled}

-- An empty queue and line, and no ticks.
abbrev pub fresh : System → Model
fresh s = record {
  queue = record { items = []; dropped = 0 };
  keyboard = s.kernel.keyboard;
  ticks = 0;
  line = [];
  waiting = s.kernel.cpu.waiting;
}

-- The kernel is at work if the test holds, and has panicked with interrupts disabled otherwise.
pub data Booted (holds : Bool) (v : Model) (frames : Pmm) (o : Outcome) : Type 0 where
  at_work :
      (t : System)
      → holds ≡ true
      → o ≡ running t
      → Stands t v
      → t.kernel.pmm ≡ frames
      → Booted holds v frames o
  stopped :
      (t : System)
      → holds ≡ false
      → o ≡ halted t
      → t.kernel.cpu.interrupts_enabled ≡ false
      → Booted holds v frames o

module _ (p : Platform) where
  require-Booted :
      (b c : Bool) (message : String) (s : System) (rest : System → Outcome) (v : Model)
      (frames : Pmm)
      → Booted c v frames (rest s)
      → Booted (b && c) v frames (require p b message s rest)
  unfolding require kernel_panic
  require-Booted true c message s rest v frames h = h
  require-Booted false c message s rest v frames h = stopped _ refl refl refl

  serving_lem :
      (s : System)
      → (t : System) × (start_interrupts p s ≡ running t)
        × Stands t (fresh s)
        × (t.kernel.pmm ≡ s.kernel.pmm)
  unfolding start_interrupts start_handlers start_serving require Interrupts.initialize
      Interrupts.register_irq Pit.initialize Pic.unmask_irq Shell.initialize Shell.print_prompt
  serving_lem s =
      let (empty, ring) = initialize-view s.kernel.input in
      (
        _,
        refl,
        record {
          core_stands = record {
            handlers = λ irq le. ground (arith, le);
            depth = refl;
            enabled = refl;
            waiting = refl;
            ring = ring;
            queue = empty;
            keyboard = refl;
            ticks = refl;
          };
          line = (reset_buffer-Holds s.kernel.shell).0;
        },
        refl,
      )

  interrupts_lem : (s : System) → Booted true (fresh s) s.kernel.pmm (start_interrupts p s)
  interrupts_lem s = let (t, e, st, same) = serving_lem s in at_work t refl e st same

  abbrev heap_ok : System → Bool
  heap_ok s = kernel_status_is_ok (Heap.initialize p.heap_start p.heap_end s.kernel.heap).0

  and_true :
      (b : Bool) (v : Model) (frames : Pmm) (o : Outcome)
      → Booted (b && true) v frames o
      → Booted b v frames o
  and_true true v frames o h = h
  and_true false v frames o h = h

  heap_lem : (s : System) → Booted (heap_ok s) (fresh s) s.kernel.pmm (start_heap p s)
  unfolding start_heap
  heap_lem s = and_true (heap_ok s) (fresh s) s.kernel.pmm _ (
      require-Booted (heap_ok s) true _ _ (start_interrupts p) (fresh s) s.kernel.pmm
        (interrupts_lem _))

  paging_lem : (s : System) → Booted (heap_ok s) (fresh s) s.kernel.pmm (start_paging p s)
  unfolding start_paging
  paging_lem s =
      let (works, _, _) = initialize-enabled p.page_directory p.page_tables s.kernel.vmm in
      subst (λ b. Booted (b && heap_ok s) (fresh s) s.kernel.pmm (start_paging p s))
        (ap kernel_status_is_ok works)
        (require-Booted _ (heap_ok s) _ _ _ (fresh s) s.kernel.pmm (heap_lem _))

  abbrev frames_ok : ℕ → Memory → System → Bool
  frames_ok address memory s =
      kernel_status_is_ok (Pmm.initialize p.memory p.layout memory address s.kernel.pmm).0

  frames_lem :
      (address : ℕ) (s : System)
      → Booted
          (frames_ok address s.kernel.memory s && heap_ok s)
          (fresh s)
          (Pmm.initialize p.memory p.layout s.kernel.memory address s.kernel.pmm).1
          (start_frames p address s)
  unfolding start_frames
  frames_lem address s = require-Booted _ (heap_ok s) _ _ _ (fresh s) _ (paging_lem _)

  -- The three parts that can refuse to start.
  abbrev pub parts_ok : ℕ → System → Option (Status × Memory) → Bool
  parts_ok address s none = false
  parts_ok address s (some (status, memory)) =
      kernel_status_is_ok status && (frames_ok address memory s && heap_ok s)

  -- The frames as `pmm_initialize` leaves them.
  abbrev pub first_frames : ℕ → System → Option (Status × Memory) → Pmm
  first_frames address s none = s.kernel.pmm
  first_frames address s (some (status, memory)) =
      (Pmm.initialize p.memory p.layout memory address s.kernel.pmm).1

  memory_lem :
      (address : ℕ) (s : System) (r : Status × Memory)
      → (o : Outcome) × (with_memory p address s (some r) ≡ some o)
        × Booted (parts_ok address s (some r)) (fresh s) (first_frames address s (some r)) o
  unfolding with_memory
  memory_lem address s (status, memory) = (
    _,
    refl,
    require-Booted _ (frames_ok address memory s && heap_ok s) _ _ _ (fresh s) _
        (frames_lem address _),
  )

  start_memory_lem :
      (address : ℕ) (s : System)
      → IsBytes p.memory
      → (o : Outcome) × (start_memory p address s ≡ some o)
        × Booted
            (parts_ok address s (Memory.initialize p.memory address))
            (fresh s)
            (first_frames address s (Memory.initialize p.memory address))
            o
  unfolding start_memory
  start_memory_lem address s b =
      let (r, e, _) = initialize-Started p.memory address b in
      let (o, ends, booted) =
        memory_lem address (announce p "Initializing normalized memory map...\n" s) r in
      (
        o,
        ap (with_memory p address (announce p "Initializing normalized memory map...\n" s)) e
            ∙ ends,
        subst (λ x. Booted (parts_ok address s x) (fresh s) (first_frames address s x) o) (sym e)
            booted,
      )

  abbrev with_log : System → Log → System
  with_log s l = with_parts s (record s.kernel { log = l })

  warn-log :
      (status : Status) (s : System) → warn p status s ≡ with_log s (warn p status s).kernel.log
  unfolding warn
  warn-log ok s = refl
  warn-log invalid_argument s = refl
  warn-log not_ready s = refl
  warn-log unavailable s = refl
  warn-log malformed_data s = refl
  warn-log out_of_memory s = refl
  warn-log hardware_failure s = refl
  warn-log already_initialized s = refl

  start_log-log : (s : System) → (l : Log) × (start_log p s ≡ with_log s l)
  unfolding start_log
  start_log-log s =
      let (status, log) = Log.initialize p.line_status s.kernel.log in
      let t = warn p status (with_log s log) in
      let e = warn-log status (with_log s log) in
      (
        _,
        ap
            (λ (u : System). with_parts u (
              emit p.line_status (say (text "wigOSX ") ∷ say version_string ∷ put 10 ∷ [])
                u.kernel))
            e,
      )

  -- What the kernel needs in order to start: the boot loader's magic number, an address, and three parts that accept.
  abbrev pub can_boot : ℕ → ℕ → System → Bool
  can_boot magic address s =
      magic == multiboot_magic
      && (not (address == 0) && parts_ok address s (Memory.initialize p.memory address))

  refused :
      (c : Bool) (v : Model) (frames : Pmm) (message : String) (s : System)
      → c ≡ false
      → (o : Outcome) × (some (kernel_panic p.line_status (some (text message)) s) ≡ some o)
        × Booted c v frames o
  unfolding kernel_panic
  refused c v frames message s e = (_, refl, stopped _ e refl refl)

  -- Whatever memory holds, `kernel_main` comes to an end of its start. If the magic number is the boot loader's, the
  -- address is not 0, and the memory map, the frames and the heap region are accepted, it reaches its loop with
  -- the two handlers registered, interrupts enabled, an empty queue, an empty line and no ticks, and the frames as `pmm_initialize` left them. Otherwise it panics, and
  -- interrupts are disabled. No other call on the way fails.
  pub kernel_main-Booted :
      (magic address : ℕ) (s : System)
      → IsBytes p.memory
      → (o : Outcome) × (kernel_main p magic address s ≡ some o)
        × Booted
            (can_boot magic address s)
            (fresh s)
            (first_frames address s (Memory.initialize p.memory address))
            o
  unfolding kernel_main
  kernel_main-Booted magic address s b =
      let first = with_parts s (on_console Console.initialize (disable_interrupts s.kernel)) in
      let (l, logged) = start_log-log first in
      elim (Bool-cases (magic == multiboot_magic)) [
        | inr e ↦ rw e (refused false (fresh s) _ "Invalid Multiboot bootloader magic" first refl)
        | inl e ↦ elim (Bool-cases (address == 0)) [
          | inl f ↦
              rw (e, f)
                (refused false (fresh s) _ "Multiboot information address is zero" first refl)
          | inr f ↦
              rw (e, f)
                (subst
                  (λ u.
                    (o : Outcome) × (start_memory p address u ≡ some o)
                    × Booted (parts_ok address s (Memory.initialize p.memory address)) (fresh s)
                        (first_frames address s (Memory.initialize p.memory address)) o)
                  (sym logged) (start_memory_lem address (with_log first l) b))
        ]
      ]
