-- ===== src/Shell/Tests.antt =====
-- A concrete kernel, and characters that its shell handles.
use wig_osx.Base.{ℕ, ◌≡◌, refl, true, false, some, List, [], ◌∷◌, arith}
use wig_osx.Base.Text.{text, no_zeros}
use wig_osx.Gdt
use wig_osx.Idt.Table.{gate}
use wig_osx.Kernel.Model.{registered}
use wig_osx.Interrupts.{is_in_context}
use wig_osx.Memory.{reset_summary}
use wig_osx.Shell.Buffer.{
  Shell, buffer_size, compare_from, literal, strings_equal, strings_equal_lem, same_text,
  command_text,
}
use wig_osx.Shell.Line.{Holds, Untouched, edit}
use wig_osx.Shell.Refine.{respond, with_shell, handle_character-Holds}
use wig_osx.Shell.Whole.{finish-character-Holds}
use wig_osx.Shell.Steps.{character_thread}
use wig_osx.Shell.Thread.{finish}
use wig_osx.Shell.{handle_character}
use wig_osx.System.{System, running}

-- The line holds `pmm`.
abbrev typed : List ℕ
typed = 112 ∷ (109 ∷ (109 ∷ []))

abbrev pub working : System
working = record {
  interrupts = record {
    irq_handlers = registered;
    irq_dispatch_counts = λ i. 0;
    unhandled_irq_count = 0;
    invalid_irq_count = 0;
    interrupt_context_depth = 0;
  };
  writes = [];
  kernel = record {
    cpu = record { interrupts_enabled = true; waiting = false };
    log = record {
      serial_available = false;
      console = record {
        initialized = true;
        terminal = record {
          row = 0;
          column = 0;
          view_start = 0;
          color = 7;
          buffer = λ i. 0;
          writes = [];
        };
      };
      serial = record { initialized = false; reads = 0; writes = [] };
    };
    ticks = 41;
    keyboard = record { shift_pressed = false; caps_lock_enabled = false };
    input = record { queue = λ i. 95; head = 1; tail = 0; dropped_character_count = 0 };
    memory = reset_summary;
    pmm = record {
      bitmap = λ i. 0;
      allocated_bitmap = λ i. 0;
      initialized = false;
      total_frames = 0;
      free_frames = 0;
      used_frames = 0;
      next_search_frame = 0;
    };
    vmm = record {
      initialized = false;
      paging = record {
        directory = λ i. 0;
        tables = λ i j. 0;
        initialized = false;
        cr0 = 0;
        cr3 = 0;
      };
    };
    heap = record { initialized = false; start_address = 0; end_address = 0; capacity = 0 };
    gdt = λ i. Gdt.fields 0 0 0 0;
    idt = λ i. gate 1 2 3;
    shell = record { buffer = literal (112 ∷ (109 ∷ (109 ∷ []))); buffer_length = 3 };
  };
}

pub typed-Holds : Holds working.kernel.shell (112 ∷ (109 ∷ (109 ∷ [])))
typed-Holds = record { buffer_length = refl; fits = omega arith; cells = λ i lt. refl }

strings_equal_lem_example :
    (compare_from buffer_size (literal typed) (literal (text "pmm_test")) 0
      ≡ some (same_text (command_text (literal typed)) (text "pmm_test")))
    × (strings_equal (literal typed) (literal (text "pmm_test"))
        ≡ same_text (command_text (literal typed)) (text "pmm_test"))
unfolding text no_zeros
strings_equal_lem_example = strings_equal_lem (literal typed) (text "pmm_test") refl (omega arith)

-- `pmm` is not `pmm_test`.
different : strings_equal (literal typed) (literal (text "pmm_test")) ≡ false
unfolding strings_equal compare_from text
different = refl

-- The character `_` is put at the end of the line.
handle_character-Holds_example :
    (next : Shell) × (handle_character (λ n. 0) working 95
      ≡ running (with_shell (respond (λ n. 0) 95 (112 ∷ (109 ∷ (109 ∷ []))) working) next))
    × Holds next (edit 95 (112 ∷ (109 ∷ (109 ∷ []))))
    × Untouched working.kernel.shell next
unfolding is_in_context
handle_character-Holds_example = handle_character-Holds (λ n. 0) typed working typed-Holds 95 refl

finish-character-Holds_example :
    (next : Shell) × (finish (λ n. 0) (character_thread (λ n. 0) 95) working
      ≡ running (with_shell (respond (λ n. 0) 95 (112 ∷ (109 ∷ (109 ∷ []))) working) next))
    × Holds next (edit 95 (112 ∷ (109 ∷ (109 ∷ []))))
    × Untouched working.kernel.shell next
unfolding is_in_context
finish-character-Holds_example = finish-character-Holds (λ n. 0) typed working typed-Holds 95 refl
