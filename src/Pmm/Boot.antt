-- ===== src/Pmm/Boot.antt =====
-- `pmm_initialize` as a whole: when it succeeds, and the state it leaves.
use wig_osx.Base.{
  ℕ, ◌/◌, ◌%◌, ◌≤◌, ◌<◌, ◌≡◌, refl, sym, ◌∙◌, ap, ◌≢◌, ◌↔◌, Bool, true, false, ◌&&◌, not, arith,
  ltb, if◌then◌else◌, uint32_max,
}
use wig_osx.Status.{ok}
use wig_osx.Multiboot.{PhysicalMemory, IsBytes}
use wig_osx.Memory.{Memory}
use wig_osx.Pmm.Bitmap.{test, test-ones, test-zeros}
use wig_osx.Pmm.Align.{frame_size}
use wig_osx.Pmm.Frames.{IsCounted, unused, count-zero, count-pos, count_witness}
use wig_osx.Pmm.Init.{
  RegionsFit, LayoutFits, some_region_gives, reserved_frame, Populated, populate-Populated,
}
use wig_osx.Pmm.Highest.{highest-bound, highest-covers}
use wig_osx.Pmm.{
  Pmm, Layout, max_frames, is_frame_index_used, is_frame_allocated, find_highest_physical_address,
  reset_bitmap, start_tracking, populate, initialize,
}

-- The frames that may be handed out, from the map and the layout alone.
abbrev pub is_available : PhysicalMemory → Layout → Memory → ℕ → ℕ → Bool
is_available m l mem a g = some_region_gives mem.region_count mem g && not (reserved_frame m l a g)

-- A frame that the allocator tracks and that is not in use.
abbrev pub is_free : Pmm → ℕ → Bool
is_free s g = ltb g s.total_frames && not (is_frame_index_used s g)

-- Between calls: the counters are right, the cursor is in range, and what is handed out is in use.
pub record IsValid (s : Pmm) : Type 0 where
  pub counted : IsCounted s
  pub cursor : s.next_search_frame ≤ s.total_frames
  pub ready : s.initialized ≡ true
  pub owned : (g : ℕ) → is_frame_allocated s g ≡ true → is_frame_index_used s g ≡ true

join :
    (t : ℕ) (used gives reserved : Bool) (g : ℕ)
    → (g < t → used ≡ (if reserved then true else if gives then false else true))
    → (gives ≡ true → g < t)
    → (ltb g t && not used) ≡ (gives && not reserved)
join t used gives reserved g frames covers = ground arith

free_parts : (g t : ℕ) (b : Bool) → (ltb g t && b) ≡ true → (g < t) × (b ≡ true)
free_parts g t b h = ground arith

and_left : (b c : Bool) → (b && c) ≡ true → b ≡ true
and_left true c h = refl
and_left false c h = h

-- Everything before the regions are released.
abbrev tracking : Memory → Pmm → Pmm
tracking mem old = start_tracking (find_highest_physical_address mem / frame_size % 4294967296) (
    reset_bitmap (record old {
      initialized = false;
      total_frames = 0;
      free_frames = 0;
      used_frames = 0;
      next_search_frame = 0;
    }))

module _ (m : PhysicalMemory) (l : Layout) (mem : Memory) (a : ℕ) (old : Pmm) (bytes : IsBytes m)
    (layout : LayoutFits l) (fits : RegionsFit mem) (address : a ≤ uint32_max) where
  all_used : (g : ℕ) → is_frame_index_used (tracking mem old) g ≡ true
  unfolding start_tracking reset_bitmap is_frame_index_used
  all_used g = test-ones g

  none_allocated : (g : ℕ) → is_frame_allocated (tracking mem old) g ≡ false
  unfolding start_tracking reset_bitmap is_frame_allocated
  none_allocated g = test-zeros g

  tracking-IsCounted : IsCounted (tracking mem old)
  unfolding start_tracking reset_bitmap
  tracking-IsCounted = record {
    tracked = omega (arith, highest-bound mem fits);
    sum = omega arith;
    free = sym (count-zero (unused (tracking mem old)) _ (λ i h. ground (arith, all_used i)));
  }

  populated : Populated m l mem a (tracking mem old) (populate m l mem a (tracking mem old))
  populated =
      populate-Populated m l mem a (tracking mem old) bytes layout fits address tracking-IsCounted

  -- How a successful call ends.
  ends_ok :
      (initialize m l mem a old).0 ≡ ok
      → ((initialize m l mem a old).1
          ≡ record (populate m l mem a (tracking mem old)) { initialized = true })
        × ((populate m l mem a (tracking mem old)).free_frames ≢ 0)
        × (a ≢ 0)
        × (mem.initialized ≡ true)
        × (mem.map_truncated ≡ false)
  unfolding initialize
  ends_ok e = ground arith

  populated_total :
      (populate m l mem a (tracking mem old)).total_frames
      ≡ find_highest_physical_address mem / frame_size
  unfolding start_tracking
  populated_total = omega (arith, populated.kept.total_frames, highest-bound mem fits)

  tracking_total : (tracking mem old).total_frames ≡ find_highest_physical_address mem / frame_size
  unfolding start_tracking
  tracking_total = omega (arith, highest-bound mem fits)

  -- The frames after the regions were released and the reserved ranges taken back.
  populated-is_free :
      (g : ℕ)
      → g < max_frames
      → is_free (populate m l mem a (tracking mem old)) g ≡ is_available m l mem a g
  populated-is_free g q =
      join (populate m l mem a (tracking mem old)).total_frames _ _ _ g
        (λ h.
          populated.frames g (omega (arith, populated_total, tracking_total))
          ∙ ap
              (λ b.
                if reserved_frame m l a g
                then true
                else if some_region_gives mem.region_count mem g
                then false
                else b)
              (all_used g))
        (λ e. omega (arith, highest-covers mem fits g q e, populated_total))

  -- After a successful `pmm_initialize`, a frame below 4 GiB is free exactly when all of it lies in one
  -- usable region of the memory map and no byte of it belongs to low memory, the kernel image, the two
  -- bitmaps, the Multiboot information structure, or the boot loader's memory map.
  pub initialize-is_free :
      (g : ℕ)
      → g < max_frames
      → (initialize m l mem a old).0 ≡ ok
      → is_free (initialize m l mem a old).1 g ≡ is_available m l mem a g
  unfolding is_frame_index_used
  initialize-is_free g q e = rw (ends_ok e).0 (populated-is_free g q)

  -- A successful `pmm_initialize` leaves right counters, the cursor in range, and no frame handed out.
  pub initialize-IsValid :
      (initialize m l mem a old).0 ≡ ok
      → IsValid (initialize m l mem a old).1
        × ((g : ℕ) → is_frame_allocated (initialize m l mem a old).1 g ≡ false)
  unfolding is_frame_index_used is_frame_allocated start_tracking reset_bitmap populate
  initialize-IsValid e =
      let p = populated in
      let none : (g : ℕ) → test (populate m l mem a (tracking mem old)).allocated_bitmap g ≡ false =
        λ g. ap (λ w. test w g) p.kept.allocated_bitmap ∙ none_allocated g in
      rw (ends_ok e).0 (
        record {
          counted = record {
            tracked = p.counted.tracked;
            sum = p.counted.sum;
            free = p.counted.free;
          };
          cursor = rw p.kept.next_search_frame (omega arith);
          ready = refl;
          owned = λ g h. cc (none g);
        },
        none,
      )

  available_of_pos :
      (populate m l mem a (tracking mem old)).free_frames ≢ 0
      → (g : ℕ) × (g < max_frames) × (is_available m l mem a g ≡ true)
  available_of_pos pos =
      let c = populated.counted in
      let (g, lt, yes_free) =
        count_witness (unused (populate m l mem a (tracking mem old)))
          (populate m l mem a (tracking mem old)).total_frames (omega (arith, c.free)) in
      let below : g < max_frames = omega (arith, c.tracked) in
      (g, below, sym (populated-is_free g below) ∙ ground (arith, yes_free))

  pos_of_available :
      (g : ℕ)
      → g < max_frames
      → is_available m l mem a g ≡ true
      → (0 < (populate m l mem a (tracking mem old)).free_frames)
        × (0 < find_highest_physical_address mem / frame_size)
  pos_of_available g q e =
      let c = populated.counted in
      let (lt, yes_free) = free_parts g _ _ (populated-is_free g q ∙ e) in
      (
        omega (
          arith,
          c.free,
          count-pos (unused (populate m l mem a (tracking mem old)))
              (populate m l mem a (tracking mem old)).total_frames g lt yes_free,
        ),
        omega (arith, highest-covers mem fits g q (and_left _ _ e)),
      )

  -- `pmm_initialize` succeeds exactly when it is given an information structure, the memory map was read
  -- whole, and some frame below 4 GiB is available.
  pub initialize-ok_iff : ((initialize m l mem a old).0 ≡ ok) ↔ (
      (a ≢ 0)
      × (mem.initialized ≡ true)
      × (mem.map_truncated ≡ false)
      × ((g : ℕ) × (g < max_frames) × (is_available m l mem a g ≡ true)))
  unfolding initialize
  initialize-ok_iff = (
    λ e. let (_, pos, a_ne, ini, tr) = ends_ok e in (a_ne, ini, tr, available_of_pos pos),
    λ h.
        let (g, q, e) = h.3 in
        let (pos, tracked) = pos_of_available g q e in ground (arith, highest-bound mem fits),
  )
