-- ===== src/Pmm/Loaded/Tests.antt =====
-- A concrete map from the boot loader to the allocator.
use wig_osx.Base.{
  ℕ, suc, zero, ◌≡◌, refl, sym, subst, true, false, ◌&&◌, not, some, none, List, ◌∷◌, replicate,
  arith, leb, pick_then, get_elem?,
}
use wig_osx.Memory
use wig_osx.Memory.Start.{map_end}
use wig_osx.Memory.Tests.{boot_memory, boot_memory-IsBytes}
use wig_osx.Memory.Walk.{Walked}
use wig_osx.Memory.{Memory, usable, reset_summary, get_region, empty_region}
use wig_osx.Multiboot.{MemoryMapEntry, read_info, read32}
use wig_osx.Pmm.Boot.{IsValid, is_free, is_available, initialize-ok_iff}
use wig_osx.Pmm.Init.{RegionsFit, RegionFits, LayoutFits, reserved_frame}
use wig_osx.Pmm.Loaded.{some_entry_gives, initialize-entries}
use wig_osx.Pmm.{Pmm, Layout, initialize, is_frame_allocated}
use wig_osx.Status.{ok}

abbrev fresh : Pmm
fresh = record {
  bitmap = λ i. 0;
  allocated_bitmap = λ i. 0;
  initialized = false;
  total_frames = 0;
  free_frames = 0;
  used_frames = 0;
  next_search_frame = 0;
}

abbrev pub layout : Layout
layout = record {
  kernel_start = 0x200000;
  kernel_end = 0x260000;
  usage_bitmap_start = 0x204000;
  allocation_bitmap_start = 0x224000;
}

pub layout-LayoutFits : LayoutFits layout
layout-LayoutFits = omega arith

-- What `memory_initialize` makes of the map.
abbrev loaded : Memory
loaded = record {
  initialized = true;
  basic_available = false;
  map_available = true;
  map_truncated = false;
  lower_kb = 0;
  upper_kb = 0;
  usable_region_count = 1;
  reserved_region_count = 0;
  total_usable_bytes = 0x200000;
  total_reserved_bytes = 0;
  regions =
      (record { base_address = 0x100000; length = 0x200000; kind = usable })
      ∷ replicate 31 empty_region;
  region_count = 1;
}

pub loads : Memory.initialize boot_memory 100 ≡ some (ok, loaded)
unfolding Memory.initialize Memory.read_multiboot_map Memory.read_entries Memory.read_round
    read_info wig_osx.Multiboot.read_entry read32 wig_osx.Multiboot.read64 Memory.add_region
    reset_summary Memory.check_count Memory.set_available Memory.entry_is_malformed
    Memory.region_type Memory.set_basic Memory.count_region Memory.store_region
loads = refl

loaded-RegionsFit : RegionsFit loaded
unfolding get_region
loaded-RegionsFit zero = omega arith
loaded-RegionsFit (suc i) =
    subst RegionFits
      (sym
        (pick_then (leb 1 (suc i)) none (get_elem? (replicate 31 empty_region) i) (ground arith)))
      _

one_available : is_available boot_memory layout loaded 100 300 ≡ true
unfolding get_region read_info read32
one_available = refl

pub boots : (initialize boot_memory layout loaded 100 fresh).0 ≡ ok
boots =
    (initialize-ok_iff boot_memory layout loaded 100 fresh boot_memory-IsBytes layout-LayoutFits
        loaded-RegionsFit (omega arith)).1
      (λ e. absurd (omega arith), refl, refl, (300, omega arith, one_available))

initialize-entries_example :
    (es : List MemoryMapEntry) × Walked boot_memory
      (map_end (read_info boot_memory 100))
      (read_info boot_memory 100).mmap_addr
      es
      (map_end (read_info boot_memory 100))
    × (is_free (initialize boot_memory layout loaded 100 fresh).1 300
        ≡ (some_entry_gives es 300 && not (reserved_frame boot_memory layout 100 300)))
    × IsValid (initialize boot_memory layout loaded 100 fresh).1
    × ((h : ℕ) → is_frame_allocated (initialize boot_memory layout loaded 100 fresh).1 h ≡ false)
initialize-entries_example =
    initialize-entries boot_memory layout 100 300 loaded fresh boot_memory-IsBytes layout-LayoutFits
      (omega arith) (omega arith) loads boots
