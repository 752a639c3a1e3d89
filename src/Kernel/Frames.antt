-- ===== src/Kernel/Frames.antt =====
-- The frames, from the start of the kernel on.
use wig_osx.Base.{
  ℕ, ◌≤◌, ◌<◌, ◌≡◌, refl, sym, ap, ◌∙◌, subst, true, false, ◌&&◌, not, Option, some, none, List,
  arith, uint32_max,
}
use wig_osx.Kernel.Boot.{Platform, kernel_main}
use wig_osx.Kernel.Lasting.{moments-Settled}
use wig_osx.Kernel.Life.{works}
use wig_osx.Kernel.Linear.{SignalsArrive}
use wig_osx.Kernel.Preempt.{Moment, going, run_moments}
use wig_osx.Kernel.Start.{can_boot, fresh, parts_ok, first_frames, kernel_main-Booted}
use wig_osx.Memory
use wig_osx.Memory.{Memory}
use wig_osx.Memory.Start.{map_end}
use wig_osx.Memory.Walk.{Walked}
use wig_osx.Multiboot.{IsBytes, MemoryMapEntry, read_info}
use wig_osx.Pmm
use wig_osx.Pmm.Boot.{IsValid, is_free}
use wig_osx.Pmm.Init.{LayoutFits, reserved_frame}
use wig_osx.Pmm.Loaded.{some_entry_gives, initialize-entries}
use wig_osx.Pmm.{Pmm, Layout, max_frames, is_frame_allocated, is_frame_index_used}
use wig_osx.Shell.Thread.{Thread, finished}
use wig_osx.Status.{
  Status, kernel_status_is_ok, ok, invalid_argument, not_ready, unavailable, malformed_data,
  out_of_memory, hardware_failure, already_initialized,
}
use wig_osx.System.{System, running}

status_ok : (status : Status) → kernel_status_is_ok status ≡ true → status ≡ ok
status_ok ok h = refl
status_ok invalid_argument h = absurd (ground (arith, h))
status_ok not_ready h = absurd (ground (arith, h))
status_ok unavailable h = absurd (ground (arith, h))
status_ok malformed_data h = absurd (ground (arith, h))
status_ok out_of_memory h = absurd (ground (arith, h))
status_ok hardware_failure h = absurd (ground (arith, h))
status_ok already_initialized h = absurd (ground (arith, h))

module _ (p : Platform) where
  -- Frame `g` is free exactly when the map says that it is usable and nothing that must stay lies in it; no frame is
  -- handed out.
  pub record Fresh (address g : ℕ) (s : Pmm) : Type 0 where
    pub entries : List MemoryMapEntry
    pub walked :
        Walked p.memory
          (map_end (read_info p.memory address))
          (read_info p.memory address).mmap_addr
          entries
          (map_end (read_info p.memory address))
    pub free :
        is_free s g
        ≡ (some_entry_gives entries g && not (reserved_frame p.memory p.layout address g))
    pub valid : IsValid s
    pub none_allocated : (h : ℕ) → is_frame_allocated s h ≡ false

  first_frames-Fresh :
      (address g : ℕ) (s : System) (x : Option (Status × Memory))
      → IsBytes p.memory
      → LayoutFits p.layout
      → address ≤ uint32_max
      → g < max_frames
      → Memory.initialize p.memory address ≡ x
      → parts_ok p address s x ≡ true
      → Fresh address g (first_frames p address s x)
  first_frames-Fresh address g s none bytes fits small below e accepts =
      absurd (ground (arith, accepts))
  first_frames-Fresh address g s (some (status, memory)) bytes fits small below e accepts =
      let loaded = status_ok status (ground (arith, accepts)) in
      let done =
        status_ok (Pmm.initialize p.memory p.layout memory address s.kernel.pmm).0
          (ground (arith, accepts)) in
      let (es, walked, free, valid, none_allocated) =
        initialize-entries p.memory p.layout address g memory s.kernel.pmm bytes fits small below
          (e ∙ ap (λ st. some (st, memory)) loaded) done in
      record {
        entries = es;
        walked = walked;
        free = free;
        valid = valid;
        none_allocated = none_allocated;
      }

  -- If the boot loader's data, the frames and the heap region are accepted, the addresses of the kernel image and the bitmaps
  -- fit 32 bits, and the address is below 4 GiB, `kernel_main` reaches its loop, and from then on, after any interrupts
  -- of the 16 lines between any steps of the foreground, whatever commands the keys make up: a frame below 4 GiB is free
  -- exactly when all of it lies in one entry of the boot loader's map that is available, and no byte of it belongs to
  -- low memory, the kernel image, the two bitmaps, the Multiboot information structure or the map; the counters are
  -- right, and no frame is handed out.
  pub kernel_main-Fresh :
      (magic address g : ℕ) (s : System) (ms : List Moment)
      → IsBytes p.memory
      → LayoutFits p.layout
      → address ≤ uint32_max
      → g < max_frames
      → can_boot p magic address s ≡ true
      → SignalsArrive ms
      → (b : System) × (t : System) × (rest : Thread) × (kernel_main p magic address s
          ≡ some (running b))
        × (run_moments p.line_status ms b finished ≡ going t rest)
        × Fresh address g t.kernel.pmm
  kernel_main-Fresh magic address g s ms bytes fits small below accepts arrive =
      let (o, ends, booted) = kernel_main-Booted p magic address s bytes in
      let (b, is_running, st, same) = works _ _ _ o accepts booted in
      let first = subst (Fresh address g) (sym same) (
        first_frames-Fresh address g s (Memory.initialize p.memory address) bytes fits small below
          refl (ground (arith, accepts))) in
      let (t, rest, runs, settled) =
        moments-Settled p.line_status ms b (fresh s) st arrive first.valid in
      let f = settled.frames in
      (
        b,
        t,
        rest,
        ends ∙ ap (λ q. some q) is_running,
        runs,
        record {
          entries = first.entries;
          walked = first.walked;
          free = ground (arith, f.total, f.used g) ∙ first.free;
          valid = f.valid;
          none_allocated = λ h. f.allocated h ∙ first.none_allocated h;
        },
      )
