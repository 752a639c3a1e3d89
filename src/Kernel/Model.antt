-- ===== src/Kernel/Model.antt =====
-- What the running kernel is for a person at the keyboard: keys that are typed wait in a queue, and a line is
-- edited. The timer counts.
use wig_osx.Base.{
  ℕ, ◌-◌, ◌≤◌, ◌≡◌, refl, Bool, true, false, Option, none, some, List, [], ◌∷◌, ◌++◌, ◌==◌,
  if◌then◌else◌, add32,
}
use wig_osx.Gdt.{GdtEntry}
use wig_osx.Heap.{Heap}
use wig_osx.Idt.{IdtEntry}
use wig_osx.Memory.{Memory}
use wig_osx.Pmm.{Pmm}
use wig_osx.Vmm.{Vmm}
use wig_osx.Input.Queue.{Queue}
use wig_osx.Input.Refine.{IsValid, view}
use wig_osx.Input.Typing.{offer}
use wig_osx.Interrupts.{Interrupts}
use wig_osx.Kernel.{Event, interrupt, round}
use wig_osx.Keyboard.{Keyboard, handle_interrupt}
use wig_osx.Shell.Line.{Holds, edit}
use wig_osx.Input.{Input}
use wig_osx.Shell.Buffer.{Shell}
use wig_osx.System.{System, Parts, Handler, Cpu, pit_handler, keyboard_handler}

pub record Model : Type 0 where
  pub queue : Queue
  pub keyboard : Keyboard
  pub ticks : ℕ
  pub line : List ℕ
  pub waiting : Bool

-- An interrupt on a line, the byte of the keyboard given.
unfoldable pub raise : ℕ → ℕ → Model → Model
raise irq raw v =
    if irq == 0
    then record v { ticks = add32 v.ticks 1; waiting = false }
    else if irq == 1
    then record v {
      queue = offer (handle_interrupt v.keyboard raw).0 v.queue;
      keyboard = (handle_interrupt v.keyboard raw).1;
      waiting = false;
    }
    else record v { waiting = false }

-- The first character of the queue is typed into the line; without one, the processor waits.
unfoldable pub consume_from : List ℕ → Model → Model
consume_from [] v = record v { waiting = true }
consume_from (c ∷ cs) v = record v { queue = record v.queue { items = cs }; line = edit c v.line }

unfoldable pub consume : Model → Model
consume v = consume_from v.queue.items v

unfoldable pub model_step : Event → Model → Model
model_step (interrupt vector raw) v = raise (vector - 32) raw v
model_step round v = if v.waiting then v else consume v

unfoldable pub model_run : List Event → Model → Model
model_run [] v = v
model_run (e ∷ es) v = model_run es (model_step e v)

pub model_run-◌++◌ :
    (es fs : List Event) (v : Model) → model_run (es ++ fs) v ≡ model_run fs (model_run es v)
unfolding model_run
model_run-◌++◌ [] fs v = refl
model_run-◌++◌ (e ∷ es) fs v = model_run-◌++◌ es fs (model_step e v)

-- The handlers of the 16 lines.
abbrev pub registered : ℕ → Option Handler
registered irq =
    if irq == 0 then some pit_handler else if irq == 1 then some keyboard_handler else none

-- What events change, but for the screen, the serial port, the frames and the line.
pub record Core : Type 0 where
  pub interrupts : Interrupts Handler
  pub cpu : Cpu
  pub keyboard : Keyboard
  pub input : Input
  pub ticks : ℕ

abbrev pub core : System → Core
core s = record {
  interrupts = s.interrupts;
  cpu = s.kernel.cpu;
  keyboard = s.kernel.keyboard;
  input = s.kernel.input;
  ticks = s.kernel.ticks;
}

-- What interrupts leave alone.
pub record Statics : Type 0 where
  pub shell : Shell
  pub memory : Memory
  pub pmm : Pmm
  pub vmm : Vmm
  pub heap : Heap
  pub gdt : ℕ → GdtEntry
  pub idt : ℕ → IdtEntry

abbrev pub statics : Parts → Statics
statics p = record {
  shell = p.shell;
  memory = p.memory;
  pmm = p.pmm;
  vmm = p.vmm;
  heap = p.heap;
  gdt = p.gdt;
  idt = p.idt;
}

pub record CoreStands (c : Core) (v : Model) : Type 0 where
  pub handlers : (irq : ℕ) → irq ≤ 15 → c.interrupts.irq_handlers irq ≡ registered irq
  pub depth : c.interrupts.interrupt_context_depth ≡ 0
  pub enabled : c.cpu.interrupts_enabled ≡ true
  pub waiting : c.cpu.waiting ≡ v.waiting
  pub ring : IsValid c.input
  pub queue : view c.input ≡ v.queue
  pub keyboard : c.keyboard ≡ v.keyboard
  pub ticks : c.ticks ≡ v.ticks

-- The system is at work: the two handlers are registered, no interrupt is being served, interrupts are enabled, and
-- the queue, the keyboard, the ticks, the line and the processor are where the model is.
pub record Stands (s : System) (v : Model) : Type 0 where
  pub core_stands : CoreStands (core s) v
  pub line : Holds s.kernel.shell v.line
