-- ===== src/Pmm/Init.antt =====
-- `pmm_initialize`: exactly which frames it leaves free.
use wig_osx.Base.{
  ℕ, zero, suc, ◌+◌, ◌-◌, ◌≤◌, ◌<◌, ◌≡◌, ◌∙◌, ap, Bool, true, false, ◌&&◌, ◌||◌, not, Option, none,
  some, arith, ltb, leb, ◌==◌, if◌then◌else◌, uint64_max, bit_and, uint32_max,
}
use wig_osx.Base.Loops.{for_range_inv}
use wig_osx.Multiboot.{
  PhysicalMemory, MultibootInfo, read_info, info_size, info_memory_map, IsBytes, read32-lt,
}
use wig_osx.Memory.{Memory, Region, RegionType, usable, reserved}
use wig_osx.Memory
use wig_osx.Pmm.Align.{range_end, range_end_lem}
use wig_osx.Pmm.Frames.{IsCounted}
use wig_osx.Pmm.Ranges.{
  Kept, Kept-trans, Marked, Marked-picks, overlaps, inside, mark_range_used-Marked, Marked-seq,
  Marked-none, Marked-if, mark_range_free-Marked,
}
use wig_osx.Pmm.{
  Pmm, Layout, max_frames, bitmap_bytes, low_memory_reserved_bytes, is_frame_index_used,
  mark_range_free, mark_range_used, visit, release_region, release_usable_memory_regions,
  reserve_low_memory, reserve_kernel_image, reserve_bitmap_storage, reserve_multiboot_information,
  populate,
}

-- Which frames a region gives: those that lie in it whole, if it is usable.
abbrev kind_gives : RegionType → ℕ → ℕ → ℕ → Bool
kind_gives usable base end g = inside base end g
kind_gives reserved base end g = false

abbrev pub region_gives : Option Region → ℕ → Bool
region_gives none g = false
region_gives (some r) g = kind_gives r.kind r.base_address (r.base_address + r.length) g

-- Some usable region among the first `n` holds all of frame `g`.
abbrev pub some_region_gives : ℕ → Memory → ℕ → Bool
some_region_gives zero mem g = false
some_region_gives (suc n) mem g =
    region_gives (Memory.get_region mem n) g || some_region_gives n mem g

-- Addresses and lengths in the map fit 64 bits.
abbrev pub RegionFits : Option Region → Type 0
RegionFits none = Unit {0}
RegionFits (some r) = (r.base_address ≤ uint64_max) × (r.length ≤ uint64_max)

abbrev pub RegionsFit : Memory → Type 0
RegionsFit mem = (i : ℕ) → RegionFits (Memory.get_region mem i)

-- Below 4 GiB it makes no difference that the end of a region saturates.
inside-range_end :
    (b n g : ℕ)
    → b ≤ uint64_max
    → n ≤ uint64_max
    → g < max_frames
    → inside b (range_end b n) g ≡ inside b (b + n) g
inside-range_end b n g h k q = ground (arith, range_end_lem b n)

overlaps-range_end :
    (b n g : ℕ)
    → b ≤ uint64_max
    → n ≤ uint64_max
    → g < max_frames
    → overlaps b (range_end b n) g ≡ overlaps b (b + n) g
overlaps-range_end b n g h k q = ground (arith, range_end_lem b n)

-- A range of bytes is reserved.
reserve-Marked :
    (b n : ℕ) (s : Pmm)
    → b ≤ uint64_max
    → n ≤ uint64_max
    → IsCounted s
    → Marked true (overlaps b (b + n)) s (mark_range_used s b n)
reserve-Marked b n s h k c =
    Marked-picks true _ _ (λ g q. overlaps-range_end b n g h k (omega (arith, c.tracked)))
      (mark_range_used-Marked b n s c h)

release_region-Marked :
    (r : Region) (s : Pmm)
    → (r.base_address ≤ uint64_max) × (r.length ≤ uint64_max)
    → IsCounted s
    → Marked false (region_gives (some r)) s (release_region r s)
unfolding release_region
release_region-Marked r s fits c =
    elim r.kind
      as (λ k.
        Marked false (kind_gives k r.base_address (r.base_address + r.length)) s
          (elim k [ usable ↦ mark_range_free s r.base_address r.length | reserved ↦ s ])) [
            | usable ↦
                Marked-picks false _ _
                  (λ g q.
                    inside-range_end r.base_address r.length g fits.0 fits.1
                      (omega (arith, c.tracked)))
                  (mark_range_free-Marked r.base_address r.length s c fits.0)
            | reserved ↦ Marked-none false s c
          ]

visit-Marked :
    (r : Option Region) (s : Pmm)
    → RegionFits r
    → IsCounted s
    → Marked false (region_gives r) s (visit release_region r s)
unfolding visit
visit-Marked none s fits c = Marked-none false s c
visit-Marked (some r) s fits c = release_region-Marked r s fits c

release-Marked :
    (mem : Memory) (s : Pmm)
    → RegionsFit mem
    → IsCounted s
    → Marked false (some_region_gives mem.region_count mem) s (release_usable_memory_regions mem s)
unfolding release_usable_memory_regions
release-Marked mem s fits c =
    for_range_inv (λ k t. Marked false (some_region_gives k mem) s t) _ mem.region_count 0
      mem.region_count s (omega arith)
      (λ k t lo hi m.
        Marked-seq false (some_region_gives k mem) (region_gives (Memory.get_region mem k)) m
          (visit-Marked (Memory.get_region mem k) t (fits k) m.counted))
      (Marked-none false s c)

-- What must never be handed out: low memory, the kernel image, the bitmaps, and what the boot loader
-- left (its information structure, and the memory map where there is one).
abbrev pub kernel_overlaps : Layout → ℕ → Bool
kernel_overlaps l g =
    if leb l.kernel_end l.kernel_start then false else overlaps l.kernel_start l.kernel_end g

abbrev pub bitmaps_overlap : Layout → ℕ → Bool
bitmaps_overlap l g =
    overlaps l.allocation_bitmap_start (l.allocation_bitmap_start + bitmap_bytes) g
    || overlaps l.usage_bitmap_start (l.usage_bitmap_start + bitmap_bytes) g

abbrev has_map : MultibootInfo → Bool
has_map info =
    not (bit_and info.flags info_memory_map == 0)
    && not (info.mmap_addr == 0)
    && ltb 0 info.mmap_length

abbrev info_overlaps : MultibootInfo → ℕ → ℕ → Bool
info_overlaps info a g =
    if has_map info
    then overlaps info.mmap_addr (info.mmap_addr + info.mmap_length) g
      || overlaps a (a + info_size) g
    else overlaps a (a + info_size) g

abbrev pub multiboot_overlaps : PhysicalMemory → ℕ → ℕ → Bool
multiboot_overlaps m a g = if a == 0 then false else info_overlaps (read_info m a) a g

-- Addresses of the layout fit 32 bits.
pub record LayoutFits (l : Layout) : Type 0 where
  pub kernel : l.kernel_end ≤ uint32_max
  pub kernel_starts : l.kernel_start ≤ uint32_max
  pub usage : l.usage_bitmap_start ≤ uint32_max
  pub allocation : l.allocation_bitmap_start ≤ uint32_max

kernel-Marked :
    (l : Layout) (s : Pmm)
    → LayoutFits l
    → IsCounted s
    → Marked true (kernel_overlaps l) s (reserve_kernel_image l s)
unfolding reserve_kernel_image
kernel-Marked l s fits c =
    Marked-if true (leb l.kernel_end l.kernel_start) _ _ (λ e. Marked-none true s c)
      (λ e.
        Marked-picks true _ _ (λ g q. ground arith)
          (reserve-Marked l.kernel_start (l.kernel_end - l.kernel_start) s
            (omega (arith, fits.kernel_starts)) (omega (arith, fits.kernel)) c))

bitmaps-Marked :
    (l : Layout) (s : Pmm)
    → LayoutFits l
    → IsCounted s
    → Marked true (bitmaps_overlap l) s (reserve_bitmap_storage l s)
unfolding reserve_bitmap_storage
bitmaps-Marked l s fits c =
    let first =
      reserve-Marked l.usage_bitmap_start bitmap_bytes s (omega (arith, fits.usage)) (omega arith)
        c in
    Marked-seq true _ _ first (
      reserve-Marked l.allocation_bitmap_start bitmap_bytes _ (omega (arith, fits.allocation))
        (omega arith) first.counted)

multiboot-Marked :
    (m : PhysicalMemory) (a : ℕ) (s : Pmm)
    → IsBytes m
    → a ≤ uint32_max
    → IsCounted s
    → Marked true (multiboot_overlaps m a) s (reserve_multiboot_information m a s)
unfolding reserve_multiboot_information read_info
multiboot-Marked m a s bytes fits c =
    let info = read_info m a in
    let first = reserve-Marked a info_size s (omega arith) (omega arith) c in
    let addr_fits : info.mmap_addr ≤ uint64_max = omega (arith, read32-lt m (a + 48) bytes) in
    let length_fits : info.mmap_length ≤ uint64_max = omega (arith, read32-lt m (a + 44) bytes) in
    Marked-if true (a == 0) _ _ (λ e. Marked-none true s c)
      (λ e.
        Marked-if true (has_map info) _ _
          (λ h.
            Marked-seq true _ _ first (
              reserve-Marked info.mmap_addr info.mmap_length _ addr_fits length_fits first.counted))
          (λ h. first))

-- What `pmm_initialize` releases and then reserves.
abbrev pub reserved_frame : PhysicalMemory → Layout → ℕ → ℕ → Bool
reserved_frame m l a g =
    multiboot_overlaps m a g
    || (bitmaps_overlap l g || (kernel_overlaps l g || overlaps 0 low_memory_reserved_bytes g))

pub record Populated (m : PhysicalMemory) (l : Layout) (mem : Memory) (a : ℕ) (s t : Pmm)
    : Type 0 where
  pub kept : Kept s t
  pub counted : IsCounted t
  pub frames :
      (g : ℕ)
      → g < s.total_frames
      → is_frame_index_used t g ≡ (
          if reserved_frame m l a g
          then true
          else if some_region_gives mem.region_count mem g
          then false
          else is_frame_index_used s g)

pub populate-Populated :
    (m : PhysicalMemory) (l : Layout) (mem : Memory) (a : ℕ) (s : Pmm)
    → IsBytes m
    → LayoutFits l
    → RegionsFit mem
    → a ≤ uint32_max
    → IsCounted s
    → Populated m l mem a s (populate m l mem a s)
unfolding populate reserve_low_memory
populate-Populated m l mem a s bytes layout fits info c =
    let released = release-Marked mem s fits c in
    let low =
      reserve-Marked 0 low_memory_reserved_bytes _ (omega arith) (omega arith) released.counted in
    let kernel = Marked-seq true _ _ low (kernel-Marked l _ layout low.counted) in
    let bitmaps = Marked-seq true _ _ kernel (bitmaps-Marked l _ layout kernel.counted) in
    let all = Marked-seq true _ _ bitmaps (multiboot-Marked m a _ bytes info bitmaps.counted) in
    record {
      kept = Kept-trans released.kept all.kept;
      counted = all.counted;
      frames = λ g q.
          all.frames g (omega (arith, released.kept.total_frames))
          ∙ ap (λ b. if reserved_frame m l a g then true else b) (released.frames g q);
    }
