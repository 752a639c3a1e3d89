-- ===== src/Pmm/Tests.antt =====
-- Small states of the allocator, and the theorems at them.
use wig_osx.Base.{
  ℕ, zero, suc, ◌%◌, ◌/◌, ◌<◌, ◌≡◌, refl, ◌≢◌, ◌↔◌, ◌⊎◌, true, false, none, [], ◌∷◌, arith, leb,
  if◌then◌else◌,
}
use wig_osx.Status.{ok}
use wig_osx.Multiboot.{PhysicalMemory, read_info, read32}
use wig_osx.Memory.{Memory, usable, reset_summary, get_region}
use wig_osx.Pmm.Bitmap.{test, mark, test-zeros}
use wig_osx.Pmm.Align.{frame_size}
use wig_osx.Pmm.Frames.{IsCounted, count}
use wig_osx.Pmm.Init.{RegionsFit, RegionFits, LayoutFits}
use wig_osx.Pmm.Boot.{IsValid, is_available, initialize-ok_iff}
use wig_osx.Pmm.Alloc.{Takes, allocate_frame-Takes, allocate_frame-none_iff}
use wig_osx.Pmm.Free.{Returns, IsLive, free_frame_lem}
use wig_osx.Pmm.History.{Follows, run, run-Follows, allocates, frees}
use wig_osx.Pmm.SelfTest.{run_basic_self_test_lem}
use wig_osx.Pmm.{
  mark_frame_allocated, mark_frame_used, Pmm, Layout, max_frames, is_frame_index_used,
  is_frame_allocated, initialize, take_frame, allocate_frame, free_frame, search_from,
  run_basic_self_test,
}

-- Four frames, of which the first is in use.
abbrev pub small : Pmm
small = record {
  bitmap = λ _. 0xFFFFFFF1;
  allocated_bitmap = λ _. 0;
  initialized = true;
  total_frames = 4;
  free_frames = 3;
  used_frames = 1;
  next_search_frame = 3;
}

small_fresh : (g : ℕ) → is_frame_allocated small g ≡ false
unfolding is_frame_allocated
small_fresh g = test-zeros g

small-IsCounted : IsCounted small
unfolding count is_frame_index_used test
small-IsCounted = record { tracked = omega arith; sum = refl; free = refl }

pub small-IsValid : IsValid small
small-IsValid = record {
  counted = small-IsCounted;
  cursor = omega arith;
  ready = refl;
  owned = λ g h. cc (small_fresh g);
}

-- The frame at the cursor is taken first, then the search goes round.
allocates_twice : (run (allocates ∷ allocates ∷ []) (small, [])).1 ≡ 0x1000 ∷ 0x3000 ∷ []
unfolding run allocate_frame search_from take_frame is_frame_index_used test mark_frame_allocated
    mark_frame_used mark
allocates_twice = refl

allocate_frame-Takes_example :
    (0x3000 % frame_size ≡ 0) × Takes small (0x3000 / frame_size) (take_frame small 3).1
unfolding allocate_frame search_from take_frame is_frame_index_used test
allocate_frame-Takes_example =
    allocate_frame-Takes small 0x3000 (take_frame small 3).1 small-IsValid refl

allocate_frame-none_iff_example : (allocate_frame small false ≡ none) ↔ (small.free_frames ≡ 0)
allocate_frame-none_iff_example = allocate_frame-none_iff small small-IsValid

free_frame_lem_example :
    (IsLive small 0x2000
      × ((free_frame small 0x2000).0 ≡ true)
      × Returns small (0x2000 / frame_size) (free_frame small 0x2000).1)
    ⊎ ((¬ IsLive small 0x2000)
        × ((free_frame small 0x2000).0 ≡ false)
        × ((free_frame small 0x2000).1 ≡ small))
free_frame_lem_example = free_frame_lem small 0x2000 small-IsValid

run-Follows_example :
    let end = run (allocates ∷ frees 0x3000 ∷ frees 0x3000 ∷ allocates ∷ []) (small, []) in
    Follows small end.0 end.1
run-Follows_example =
    run-Follows small (allocates ∷ frees 0x3000 ∷ frees 0x3000 ∷ allocates ∷ []) small-IsValid
      small_fresh

run_basic_self_test_lem_example :
    ((run_basic_self_test small).0 ≡ true)
    × IsValid (run_basic_self_test small).1
    × ((run_basic_self_test small).1.total_frames ≡ 4)
    × ((run_basic_self_test small).1.free_frames ≡ 3)
    × ((g : ℕ) → is_frame_index_used (run_basic_self_test small).1 g ≡ is_frame_index_used small g)
    × ((g : ℕ) → is_frame_allocated (run_basic_self_test small).1 g ≡ is_frame_allocated small g)
run_basic_self_test_lem_example = run_basic_self_test_lem small small-IsValid

-- A machine with one usable frame above low memory.
abbrev one_region : Memory
one_region = record reset_summary {
  initialized = true;
  map_available = true;
  regions = (record { base_address = 0x100000; length = 0x1000; kind = usable }) ∷ [];
  region_count = 1;
}

abbrev layout : Layout
layout = record {
  kernel_start = 0x200000;
  kernel_end = 0x260000;
  usage_bitmap_start = 0x204000;
  allocation_bitmap_start = 0x224000;
}

abbrev zeros : PhysicalMemory
zeros _ = 0

one_region_fits : RegionsFit one_region
unfolding get_region
one_region_fits zero = omega arith
one_region_fits (suc i) = elim (leb 1 (suc i)) as (λ b. RegionFits (if b then none else none)) [
  | true ↦ tt
  | false ↦ tt
]

layout_fits : LayoutFits layout
layout_fits = omega arith

one_available : is_available zeros layout one_region 0x9000 256 ≡ true
unfolding get_region read_info read32
one_available = refl

boots : (initialize zeros layout one_region 0x9000 small).0 ≡ ok
unfolding reset_summary
boots =
    (initialize-ok_iff zeros layout one_region 0x9000 small (λ _. omega arith) layout_fits
        one_region_fits (omega arith)).1
      (λ e. absurd (omega arith), refl, refl, (256, omega arith, one_available))

initialize-ok_iff_example : ((initialize zeros layout one_region 0x9000 small).0 ≡ ok) ↔ (
    (◌≢◌ {A = ℕ} 0x9000 0)
    × (one_region.initialized ≡ true)
    × (one_region.map_truncated ≡ false)
    × ((g : ℕ) × (g < max_frames) × (is_available zeros layout one_region 0x9000 g ≡ true)))
initialize-ok_iff_example =
    initialize-ok_iff zeros layout one_region 0x9000 small (λ _. omega arith) layout_fits
      one_region_fits (omega arith)
