-- ===== src/Pmm/State.antt =====
-- The state of the physical memory manager, src/mm/pmm.c, and marking frames and ranges of them.
use wig_osx.Base.{ℕ, ◌-◌, ◌/◌, ◌%◌, Bool, ◌&&◌, not, ltb, leb, if◌then◌else◌, add32, sub32}
use wig_osx.Base.Loops.{for_range}
use wig_osx.Pmm.Bitmap.{Words, test, mark, unmark}
use wig_osx.Pmm.Align.{frame_size, align_down, align_up, range_end}

-- `PMM_MAX_PHYSICAL_MEMORY_BYTES` and `PMM_MAX_FRAMES`.
abbrev pub max_physical_memory_bytes : ℕ
max_physical_memory_bytes = 0x100000000

abbrev pub max_frames : ℕ
max_frames = 1048576

-- `PMM_LOW_MEMORY_RESERVED_BYTES`.
abbrev pub low_memory_reserved_bytes : ℕ
low_memory_reserved_bytes = 0x00100000

-- `sizeof(pmm_bitmap)`, 32768 words of 4 bytes.
abbrev pub bitmap_bytes : ℕ
bitmap_bytes = 131072

-- The file's static variables.
pub record Pmm : Type 0 where
  pub bitmap : Words
  pub allocated_bitmap : Words
  pub initialized : Bool
  pub total_frames : ℕ
  pub free_frames : ℕ
  pub used_frames : ℕ
  pub next_search_frame : ℕ

-- Addresses that the linker chooses: the kernel image and the two bitmaps.
pub record Layout : Type 0 where
  pub kernel_start : ℕ
  pub kernel_end : ℕ
  pub usage_bitmap_start : ℕ
  pub allocation_bitmap_start : ℕ

unfoldable pub is_valid_frame_index : Pmm → ℕ → Bool
is_valid_frame_index s frame_index = ltb frame_index s.total_frames && ltb frame_index max_frames

unfoldable pub is_frame_index_used : Pmm → ℕ → Bool
is_frame_index_used s frame_index = test s.bitmap frame_index

unfoldable pub is_frame_allocated : Pmm → ℕ → Bool
is_frame_allocated s frame_index = test s.allocated_bitmap frame_index

unfoldable pub mark_frame_allocated : Pmm → ℕ → Pmm
unfolding is_valid_frame_index
mark_frame_allocated s frame_index =
    if not (is_valid_frame_index s frame_index)
    then s
    else record s { allocated_bitmap = mark s.allocated_bitmap frame_index }

unfoldable pub mark_frame_unallocated : Pmm → ℕ → Pmm
unfolding is_valid_frame_index
mark_frame_unallocated s frame_index =
    if not (is_valid_frame_index s frame_index)
    then s
    else record s { allocated_bitmap = unmark s.allocated_bitmap frame_index }

unfoldable pub mark_frame_used : Pmm → ℕ → Pmm
unfolding is_valid_frame_index is_frame_index_used
mark_frame_used s frame_index =
    if not (is_valid_frame_index s frame_index)
    then s
    else if is_frame_index_used s frame_index
    then s
    else record s {
      bitmap = mark s.bitmap frame_index;
      free_frames = if ltb 0 s.free_frames then sub32 s.free_frames 1 else s.free_frames;
      used_frames = add32 s.used_frames 1;
    }

unfoldable pub mark_frame_free : Pmm → ℕ → Pmm
unfolding is_valid_frame_index is_frame_index_used
mark_frame_free s frame_index =
    if not (is_valid_frame_index s frame_index)
    then s
    else if not (is_frame_index_used s frame_index)
    then s
    else record s {
      bitmap = unmark s.bitmap frame_index;
      free_frames = add32 s.free_frames 1;
      used_frames = if ltb 0 s.used_frames then sub32 s.used_frames 1 else s.used_frames;
    }

-- `for (frame = first; frame < last; frame++)`, cut at the last tracked frame.
unfoldable pub for_frames : (Pmm → ℕ → Pmm) → ℕ → ℕ → Pmm → Pmm
for_frames body first last s =
    if leb s.total_frames first
    then s
    else let stop = if ltb s.total_frames last then s.total_frames else last in
      for_range (stop - first) first (λ frame t. body t (frame % 4294967296)) s

unfoldable pub mark_range_free : Pmm → ℕ → ℕ → Pmm
unfolding for_frames
mark_range_free s base_address length =
    let end_address = range_end base_address length in
    for_frames mark_frame_free (align_up base_address / frame_size)
      (align_down end_address / frame_size) s

unfoldable pub mark_range_used : Pmm → ℕ → ℕ → Pmm
unfolding for_frames
mark_range_used s base_address length =
    let end_address = range_end base_address length in
    for_frames mark_frame_used (align_down base_address / frame_size)
      (align_up end_address / frame_size) s
