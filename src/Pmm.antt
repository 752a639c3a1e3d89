-- ===== src/Pmm.antt =====
-- The physical memory manager, src/mm/pmm.c: a bitmap of frames in use, a second bitmap of frames that
-- were handed out, the counters, and a cursor for the next search.
-- Child modules: `Bitmap` the two bitmaps, `Align` the rounding of addresses, `State` the
-- state and the marks, the others the proofs.
pub mod Bitmap
pub mod Align
pub mod State
pub mod Frames
pub mod Ranges
pub mod Init
pub mod Highest
pub mod Boot
pub mod Loaded
pub mod Search
pub mod Alloc
pub mod Free
pub mod History
pub mod SelfTest
pub mod Print
pub mod Tests
use wig_osx.Base.{
  ℕ, zero, suc, ◌+◌, ◌-◌, ◌*◌, ◌/◌, ◌%◌, ◌≡◌, Bool, true, false, ◌&&◌, ◌||◌, not, Option, none,
  some, ltb, leb, ◌==◌, if◌then◌else◌, bit_and, uint64_max, add32, sub32,
}
use wig_osx.Base.Loops.{for_range}
use wig_osx.Status.{Status, ok, invalid_argument, not_ready, unavailable, out_of_memory}
use wig_osx.Multiboot.{PhysicalMemory, read_info, info_size, info_memory_map}
use wig_osx.Memory.{Memory, Region, RegionType, usable, reserved}
use wig_osx.Memory
use Bitmap.{Words, test, mark, unmark}
pub use State.{
  max_physical_memory_bytes, max_frames, low_memory_reserved_bytes, bitmap_bytes, Pmm, Layout,
}
unfoldable pub use State.{
  is_valid_frame_index, is_frame_index_used, is_frame_allocated, mark_frame_allocated,
  mark_frame_unallocated, mark_frame_used, mark_frame_free, for_frames, mark_range_free,
  mark_range_used,
}
use Align.{frame_size, align_down, align_up, range_end}

visit {ℓ} : {S : Type ℓ} → (Region → S → S) → Option Region → S → S
visit body none t = t
visit body (some r) t = body r t

-- A loop over the regions of the memory map; a `NULL` region is skipped.
for_regions {ℓ} : {S : Type ℓ} → Memory → (Region → S → S) → S → S
unfolding visit
for_regions mem body s =
    for_range mem.region_count 0 (λ i t. visit body (Memory.get_region mem i) t) s

grow_highest : Region → ℕ → ℕ
grow_highest r highest =
    let end_address = range_end r.base_address r.length in
    if ltb highest end_address then end_address else highest

unfoldable pub find_highest_physical_address : Memory → ℕ
unfolding for_regions grow_highest
find_highest_physical_address mem =
    let highest = for_regions mem grow_highest 0 in
    align_up (if ltb max_physical_memory_bytes highest then max_physical_memory_bytes else highest)

release_region : Region → Pmm → Pmm
release_region r s = elim r.kind [
  | usable ↦ mark_range_free s r.base_address r.length
  | reserved ↦ s
]

unfoldable pub release_usable_memory_regions : Memory → Pmm → Pmm
unfolding for_regions release_region
release_usable_memory_regions mem s = for_regions mem release_region s

unfoldable pub reserve_low_memory : Pmm → Pmm
reserve_low_memory s = mark_range_used s 0 low_memory_reserved_bytes

unfoldable pub reserve_kernel_image : Layout → Pmm → Pmm
reserve_kernel_image l s =
    if leb l.kernel_end l.kernel_start
    then s
    else mark_range_used s l.kernel_start (l.kernel_end - l.kernel_start)

unfoldable pub reserve_bitmap_storage : Layout → Pmm → Pmm
reserve_bitmap_storage l s =
    mark_range_used (mark_range_used s l.usage_bitmap_start bitmap_bytes) l.allocation_bitmap_start
      bitmap_bytes

unfoldable pub reserve_multiboot_information : PhysicalMemory → ℕ → Pmm → Pmm
reserve_multiboot_information m address s =
    if address == 0
    then s
    else let info = read_info m address in
      let t = mark_range_used s address info_size in
      if not (bit_and info.flags info_memory_map == 0)
        && not (info.mmap_addr == 0)
        && ltb 0 info.mmap_length
      then mark_range_used t info.mmap_addr info.mmap_length
      else t

-- `pmm_reset_bitmap`: every frame is used, none is handed out.
unfoldable pub reset_bitmap : Pmm → Pmm
reset_bitmap s = record s { bitmap = λ _. 0xFFFFFFFF; allocated_bitmap = λ _. 0 }

-- The state once the number of frames is known: all are used.
unfoldable pub start_tracking : ℕ → Pmm → Pmm
start_tracking frames s = record s { total_frames = frames; free_frames = 0; used_frames = frames }

-- The regions are released, then what must not be handed out is taken back.
unfoldable pub populate : PhysicalMemory → Layout → Memory → ℕ → Pmm → Pmm
populate m l mem multiboot_info_address s =
    let released = release_usable_memory_regions mem s in
    let reserved_kernel = reserve_kernel_image l (reserve_low_memory released) in
    reserve_multiboot_information m multiboot_info_address
      (reserve_bitmap_storage l reserved_kernel)

unfoldable pub initialize : PhysicalMemory → Layout → Memory → ℕ → Pmm → Status × Pmm
initialize m l mem multiboot_info_address old =
    let cleared : Pmm = record old {
      initialized = false;
      total_frames = 0;
      free_frames = 0;
      used_frames = 0;
      next_search_frame = 0;
    } in
    if multiboot_info_address == 0
    then (invalid_argument, cleared)
    else if not mem.initialized || mem.map_truncated
    then (not_ready, cleared)
    else let reset = reset_bitmap cleared in
      let highest_address = find_highest_physical_address mem in
      if highest_address == 0
      then (unavailable, reset)
      else let frames = highest_address / frame_size % 4294967296 in
        if frames == 0
        then (unavailable, record reset { total_frames = frames })
        else let s = populate m l mem multiboot_info_address (start_tracking frames reset) in
          if s.free_frames == 0 then (out_of_memory, s) else (ok, record s { initialized = true })

-- A frame that the search found is handed out: its address, and the state after.
unfoldable pub take_frame : Pmm → ℕ → ℕ × Pmm
take_frame s frame = (
  frame * frame_size % 4294967296,
  record (mark_frame_allocated (mark_frame_used s frame) frame) {
    next_search_frame = add32 frame 1;
  },
)

-- One search loop of `pmm_allocate_frame`, of so many rounds from `frame` on.
unfoldable pub search_from : ℕ → ℕ → Pmm → Option (ℕ × Pmm)
search_from zero frame s = none
search_from (suc rounds) frame s = elim (is_frame_index_used s frame) [
  | true ↦ search_from rounds (suc frame) s
  | false ↦ some (take_frame s frame)
]

-- `pmm_allocate_frame`: `none` for `false`. `out_is_null` says whether the caller's pointer is `NULL`.
unfoldable pub allocate_frame : Pmm → Bool → Option (ℕ × Pmm)
allocate_frame s out_is_null =
    if not s.initialized || out_is_null
    then none
    else elim (search_from (s.total_frames - s.next_search_frame) s.next_search_frame s) [
      | some found ↦ some found
      | none ↦ search_from s.next_search_frame 0 s
    ]

-- `pmm_free_frame`: the result, and the state after.
unfoldable pub free_frame : Pmm → ℕ → Bool × Pmm
free_frame s physical_address =
    if not s.initialized
    then (false, s)
    else if not (physical_address % frame_size == 0)
    then (false, s)
    else let frame_index = physical_address / frame_size in
      if not (is_valid_frame_index s frame_index)
      then (false, s)
      else if not (is_frame_allocated s frame_index)
      then (false, s)
      else let t = mark_frame_free (mark_frame_unallocated s frame_index) frame_index in
        (
          true,
          (if ltb frame_index t.next_search_frame
              then record t { next_search_frame = frame_index }
              else t),
        )

unfoldable pub is_frame_used : Pmm → ℕ → Bool
is_frame_used s physical_address =
    let frame_index = physical_address / frame_size in
    if not (is_valid_frame_index s frame_index) then true else is_frame_index_used s frame_index

-- The second half of the self-test, after the frame was given back.
check_released : Pmm → Bool × Pmm → Bool × Pmm
check_released s (false, t) = (false, t)
check_released s (true, t) =
    if not (t.free_frames == s.free_frames)
    then (false, t)
    else if not (t.used_frames == s.used_frames)
    then (false, t)
    else (true, t)

-- `pmm_run_basic_self_test`: the result, and the state it leaves.
unfoldable pub run_basic_self_test : Pmm → Bool × Pmm
unfolding check_released
run_basic_self_test s = elim (allocate_frame s false) [
  | none ↦ (false, s)
  | some (physical_address, t) ↦
      if not (is_frame_used t physical_address)
      then (false, t)
      else if not (t.free_frames == sub32 s.free_frames 1)
      then (false, t)
      else if not (t.used_frames == add32 s.used_frames 1)
      then (false, t)
      else check_released s (free_frame t physical_address)
]
