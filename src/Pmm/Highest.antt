-- ===== src/Pmm/Highest.antt =====
-- How many frames `pmm_initialize` tracks.
use wig_osx.Base.{ℕ, suc, ◌+◌, ◌*◌, ◌/◌, ◌≤◌, ◌<◌, ◌≡◌, true, Option, none, some, arith, uint64_max}
use wig_osx.Base.Loops.{for_range_inv}
use wig_osx.Memory.{Memory, Region, usable, reserved}
use wig_osx.Memory
use wig_osx.Pmm.Align.{frame_size, range_end_lem, ltb-align_up, align_up_lem}
use wig_osx.Pmm.Init.{region_gives, some_region_gives, RegionFits, RegionsFit}
use wig_osx.Pmm.{
  max_frames, max_physical_memory_bytes, find_highest_physical_address, grow_highest, visit,
  for_regions,
}

-- The search for the highest address has seen the end of every frame that the regions so far give.
record Reached (k : ℕ) (mem : Memory) (highest : ℕ) : Type 0 where
  within : highest ≤ uint64_max
  covers : (g : ℕ) → g < max_frames → some_region_gives k mem g ≡ true → g * 4096 + 4096 ≤ highest

grow_highest-within :
    (r : Option Region) (h : ℕ)
    → RegionFits r
    → h ≤ uint64_max
    → visit grow_highest r h ≤ uint64_max
unfolding visit grow_highest
grow_highest-within none h fits w = w
grow_highest-within (some r) h fits w = ground (arith, range_end_lem r.base_address r.length)

grow_highest-grows : (r : Option Region) (h : ℕ) → h ≤ visit grow_highest r h
unfolding visit grow_highest
grow_highest-grows none h = omega arith
grow_highest-grows (some r) h = ground arith

grow_highest-covers :
    (r : Option Region) (h g : ℕ)
    → RegionFits r
    → g < max_frames
    → region_gives r g ≡ true
    → g * 4096 + 4096 ≤ visit grow_highest r h
unfolding visit grow_highest
grow_highest-covers none h g fits q e = cc
grow_highest-covers (some r) h g fits q e = ground (arith, range_end_lem r.base_address r.length)

Reached-round :
    (k : ℕ) (mem : Memory) (h : ℕ)
    → RegionsFit mem
    → Reached k mem h
    → Reached (suc k) mem (visit grow_highest (Memory.get_region mem k) h)
Reached-round k mem h fits r = record {
  within = grow_highest-within (Memory.get_region mem k) h (fits k) r.within;
  covers = λ g q e. ground (
    arith,
    r.covers g q,
    grow_highest-grows (Memory.get_region mem k) h,
    grow_highest-covers (Memory.get_region mem k) h g (fits k) q,
  );
}

highest_end : Memory → ℕ
unfolding for_regions
highest_end mem = for_regions mem grow_highest 0

highest_end-Reached :
    (mem : Memory) → RegionsFit mem → Reached mem.region_count mem (highest_end mem)
unfolding highest_end
highest_end-Reached mem fits =
    for_range_inv (λ k h. Reached k mem h) _ mem.region_count 0 mem.region_count 0 (omega arith)
      (λ k t lo hi r. Reached-round k mem t fits r)
      (record { within = omega arith; covers = λ g q e. cc })

-- At most 2 ^ 20 frames are tracked, and every frame that a usable region gives is.
module _ (mem : Memory) (fits : RegionsFit mem) where
  pub highest-bound : find_highest_physical_address mem ≤ max_physical_memory_bytes
  unfolding find_highest_physical_address highest_end
  highest-bound =
      ground (arith, align_up_lem (highest_end mem), align_up_lem max_physical_memory_bytes)

  pub highest-covers :
      (g : ℕ)
      → g < max_frames
      → some_region_gives mem.region_count mem g ≡ true
      → g < find_highest_physical_address mem / frame_size
  unfolding find_highest_physical_address highest_end
  highest-covers g q e =
      let r = highest_end-Reached mem fits in
      ground (
        arith,
        r.within,
        r.covers g q e,
        ltb-align_up (highest_end mem) g,
        ltb-align_up max_physical_memory_bytes g,
      )
