-- ===== src/Kernel/Careful.antt =====
-- Steps of the foreground that leave the frames, the memory map and the tables as they are.
use wig_osx.Base.{
  ℕ, ◌≡◌, refl, sym, ap, ◌∙◌, subst, Bool, true, false, List, [], ◌∷◌, if◌then◌else◌,
}
use wig_osx.Kernel.Model.{Statics, statics}
use wig_osx.Log.{Call}
use wig_osx.Pmm.Boot.{IsValid}
use wig_osx.Pmm.SelfTest.{run_basic_self_test_lem}
use wig_osx.Pmm.{Pmm, is_frame_index_used, is_frame_allocated}
use wig_osx.Shell.Buffer.{Shell}
use wig_osx.Shell.Commands.{
  Command, no_command, help_command, clear_command, version_command, ticks_command, irq_command,
  input_command, mem_command, pmm_command, pmm_test_command, heap_command, paging_command,
  about_command, scroll_command, unknown_command,
}
use wig_osx.Shell.Output.{Printed}
use wig_osx.Shell.Steps.{
  print_thread, log_thread, pmm_test_thread, command_thread, newline_thread, backspace_thread,
  other_thread, character_thread,
}
use wig_osx.Shell.Thread.{Thread, finished, panics, act, then_do, after}
use wig_osx.System.{System, Parts}

-- The same frames are free, in use and handed out, and the counters are right.
pub record SameFrames (s t : Pmm) : Type 0 where
  pub valid : IsValid t
  pub total : t.total_frames ≡ s.total_frames
  pub free : t.free_frames ≡ s.free_frames
  pub used : (g : ℕ) → is_frame_index_used t g ≡ is_frame_index_used s g
  pub allocated : (g : ℕ) → is_frame_allocated t g ≡ is_frame_allocated s g

pub record Settled (p q : Parts) : Type 0 where
  pub memory : q.memory ≡ p.memory
  pub vmm : q.vmm ≡ p.vmm
  pub heap : q.heap ≡ p.heap
  pub gdt : q.gdt ≡ p.gdt
  pub idt : q.idt ≡ p.idt
  pub frames : SameFrames p.pmm q.pmm

-- Only the shell's part of what interrupts leave alone has changed.
pub kept :
    (p q : Parts) (b : Shell)
    → statics q ≡ statics (record p { shell = b })
    → IsValid p.pmm
    → Settled p q
kept p q b e v = record {
  memory = ap (λ (x : Statics). x.memory) e;
  vmm = ap (λ (x : Statics). x.vmm) e;
  heap = ap (λ (x : Statics). x.heap) e;
  gdt = ap (λ (x : Statics). x.gdt) e;
  idt = ap (λ (x : Statics). x.idt) e;
  frames =
      subst (SameFrames p.pmm) (sym (ap (λ (x : Statics). x.pmm) e))
        (record { valid = v; total = refl; free = refl; used = λ g. refl; allocated = λ g. refl });
}

pub Settled-trans : (p q r : Parts) → Settled p q → Settled q r → Settled p r
Settled-trans p q r a b = record {
  memory = b.memory ∙ a.memory;
  vmm = b.vmm ∙ a.vmm;
  heap = b.heap ∙ a.heap;
  gdt = b.gdt ∙ a.gdt;
  idt = b.idt ∙ a.idt;
  frames = record {
    valid = b.frames.valid;
    total = b.frames.total ∙ a.frames.total;
    free = b.frames.free ∙ a.frames.free;
    used = λ g. b.frames.used g ∙ a.frames.used g;
    allocated = λ g. b.frames.allocated g ∙ a.frames.allocated g;
  };
}

-- Every step keeps them.
unfoldable pub Careful : Thread → Type 0
Careful finished = Unit {0}
Careful (panics message) = Unit {0}
Careful (act f rest) =
    (s : System) → (IsValid s.kernel.pmm → Settled s.kernel (f s).kernel) × Careful (rest s)

finished-Careful : Careful finished
unfolding Careful
finished-Careful = tt

panics-Careful : (message : List ℕ) → Careful (panics message)
unfolding Careful
panics-Careful message = tt

-- A step that changes none of them, but for the line.
act-Careful :
    (f : System → System) (rest : System → Thread)
    → ((s : System)
        → statics (f s).kernel ≡ statics (record s.kernel { shell = (f s).kernel.shell }))
    → ((s : System) → Careful (rest s))
    → Careful (act f rest)
unfolding Careful
act-Careful f rest e h = λ s. (kept s.kernel (f s).kernel (f s).kernel.shell (e s), h s)

after-Careful : (t u : Thread) → Careful t → Careful u → Careful (after t u)
unfolding Careful after
after-Careful finished u q g = g
after-Careful (panics m) u q g = tt
after-Careful (act f rest) u q g = λ s. let (e, r) = q s in (e, after-Careful (rest s) u r g)

if-Careful : (c : Bool) (t u : Thread) → Careful t → Careful u → Careful (if c then t else u)
if-Careful true t u g h = g
if-Careful false t u g h = h

print_thread-Careful : (ps : List (System → Printed)) → Careful (print_thread ps)
unfolding print_thread
print_thread-Careful [] = finished-Careful
print_thread-Careful (p ∷ ps) = act-Careful _ _ (λ s. refl) (λ s. print_thread-Careful ps)

module _ (line_status : ℕ → ℕ) where
  log_thread-Careful : (cs : List Call) → Careful (log_thread line_status cs)
  unfolding log_thread
  log_thread-Careful [] = finished-Careful
  log_thread-Careful (c ∷ cs) = act-Careful _ _ (λ s. refl) (λ s. log_thread-Careful cs)

  -- The self-test gives back what it takes.
  pmm_test-Careful : Careful (pmm_test_thread line_status)
  unfolding Careful pmm_test_thread
  pmm_test-Careful = λ s. (
    λ v.
        let (_, valid, total, free, used, allocated) = run_basic_self_test_lem s.kernel.pmm v in
        record {
          memory = refl;
          vmm = refl;
          heap = refl;
          gdt = refl;
          idt = refl;
          frames = record {
            valid = valid;
            total = total;
            free = free;
            used = used;
            allocated = allocated;
          };
        },
    print_thread-Careful _,
  )

  command_thread-Careful :
      (c : Command) (line : List ℕ) → Careful (command_thread line_status c line)
  unfolding command_thread
  command_thread-Careful no_command line = finished-Careful
  command_thread-Careful help_command line = print_thread-Careful _
  command_thread-Careful clear_command line = act-Careful _ _ (λ s. refl) (λ s. finished-Careful)
  command_thread-Careful version_command line = print_thread-Careful _
  command_thread-Careful ticks_command line = print_thread-Careful _
  command_thread-Careful irq_command line = print_thread-Careful _
  command_thread-Careful input_command line = print_thread-Careful _
  command_thread-Careful mem_command line = act-Careful _ _ (λ s. refl) (λ s. log_thread-Careful _)
  command_thread-Careful pmm_command line = act-Careful _ _ (λ s. refl) (λ s. log_thread-Careful _)
  command_thread-Careful pmm_test_command line = pmm_test-Careful
  command_thread-Careful heap_command line = print_thread-Careful _
  command_thread-Careful paging_command line =
      act-Careful _ _ (λ s. refl) (λ s. log_thread-Careful _)
  command_thread-Careful about_command line = print_thread-Careful _
  command_thread-Careful scroll_command line = print_thread-Careful _
  command_thread-Careful unknown_command line = print_thread-Careful _

  newline-Careful : Careful (newline_thread line_status)
  unfolding newline_thread wig_osx.Shell.print_prompt
  newline-Careful =
      act-Careful _ _ (λ s. refl)
        (λ s.
          act-Careful _ _ (λ s. refl)
            (λ s.
              after-Careful _ _ (act-Careful _ _ (λ s. refl) (λ s. command_thread-Careful _ _)) (
                act-Careful _ _ (λ s. refl)
                  (λ s. act-Careful _ _ (λ s. refl) (λ s. finished-Careful)))))

  -- Three such steps.
  three_steps-Careful :
      (f g h : System → System)
      → ((s : System)
          → statics (f s).kernel ≡ statics (record s.kernel { shell = (f s).kernel.shell }))
      → ((s : System)
          → statics (g s).kernel ≡ statics (record s.kernel { shell = (g s).kernel.shell }))
      → ((s : System)
          → statics (h s).kernel ≡ statics (record s.kernel { shell = (h s).kernel.shell }))
      → Careful (then_do f (then_do g (then_do h finished)))
  three_steps-Careful f g h a b c =
      act-Careful f _ a (λ s. act-Careful g _ b (λ s. act-Careful h _ c (λ s. finished-Careful)))

  backspace-Careful : Careful (backspace_thread line_status)
  unfolding backspace_thread
  backspace-Careful =
      act-Careful _ _ (λ s. refl)
        (λ s.
          if-Careful _ _ _ (three_steps-Careful _ _ _ (λ s. refl) (λ s. refl) (λ s. refl))
            finished-Careful)

  other-Careful : (c : ℕ) → Careful (other_thread line_status c)
  unfolding other_thread wig_osx.Shell.print_prompt
  other-Careful c =
      act-Careful _ _ (λ s. refl)
        (λ s.
          if-Careful _ _ _
            (act-Careful _ _ (λ s. refl) (λ s. act-Careful _ _ (λ s. refl) (λ s. finished-Careful)))
            (three_steps-Careful _ _ _ (λ s. refl) (λ s. refl) (λ s. refl)))

  pub character-Careful : (c : ℕ) → Careful (character_thread line_status c)
  unfolding character_thread
  character-Careful c =
      act-Careful _ _ (λ s. refl)
        (λ s. if-Careful _ _ _ (panics-Careful _) (
          if-Careful _ _ _ newline-Careful (
            if-Careful _ _ _ backspace-Careful
              (if-Careful _ _ _ finished-Careful (other-Careful c)))))
