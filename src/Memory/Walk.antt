-- ===== src/Memory/Walk.antt =====
-- The walk through the boot loader's map.
use wig_osx.Base.{
  pick_then, pick_else, ℕ, suc, ◌+◌, ◌-◌, ◌≤◌, ◌<◌, ◌≡◌, ◌∙◌, ap, ◌⊎◌, Bool, true, false, ◌&&◌,
  ◌||◌, not, List, [], ◌∷◌, ◌++◌, arith, leb, ◌==◌, if◌then◌else◌, uint32_max, uint64_max, length,
  Option, some,
}
use wig_osx.Memory.{
  Memory, Region, add_region, entry_is_malformed, region_type, read_round, read_entries, Round,
  return, continue, max_regions,
}
use wig_osx.Memory.Store.{Holds}
use wig_osx.Multiboot.{
  PhysicalMemory, IsBytes, read64-lt, MemoryMapEntry, read_entry, memory_map_base_size,
}
use wig_osx.Status.{Status, ok, malformed_data}

-- An entry at `a` lies before `end`, with its whole fixed part, and its region does not pass 2 ^ 64.
abbrev pub entry_fits : MemoryMapEntry → ℕ → ℕ → Bool
entry_fits e a end =
    leb memory_map_base_size e.size
    && (leb (a + 4 + e.size) end && (e.len == 0 || leb (e.base_addr + e.len) uint64_max))

-- From `a`, the entries that fit one after the other, up to `b`.
pub data Walked (m : PhysicalMemory) (end : ℕ) : ℕ → List MemoryMapEntry → ℕ → Type 0 where
  here : (a : ℕ) → Walked m end a [] a
  next :
      (a : ℕ) (es : List MemoryMapEntry) (b : ℕ)
      → entry_fits (read_entry m a) a end ≡ true
      → Walked m end (a + 4 + (read_entry m a).size) es b
      → Walked m end a (read_entry m a ∷ es) b

abbrev pub region_of : MemoryMapEntry → Region
region_of e = record { base_address = e.base_addr; length = e.len; kind = region_type e }

-- The regions of the entries that are not empty.
unfoldable pub regions_of : List MemoryMapEntry → List Region
regions_of [] = []
regions_of (e ∷ es) = if e.len == 0 then regions_of es else region_of e ∷ regions_of es

-- How the walk from `a` ends, after the regions `rs`: the entries fill the map, and the regions are stored; or, at
-- an entry that does not fit or whose region finds no room, the data are malformed.
pub data Outcome (m : PhysicalMemory) (end a : ℕ) (rs : List Region)
    : Status × Memory → Type 0 where
  accepted :
      (es : List MemoryMapEntry) (t : Memory)
      → Walked m end a es end
      → Holds t (rs ++ regions_of es)
      → Outcome m end a rs (ok, t)
  refused :
      (es : List MemoryMapEntry) (b : ℕ) (t : Memory)
      → Walked m end a es b
      → b < end
      → ((entry_fits (read_entry m b) b end ≡ false)
          ⊎ (((read_entry m b).len == 0) ≡ false) × (length (rs ++ regions_of es) ≡ max_regions))
      → Outcome m end a rs (malformed_data, t)

fits_lem :
    (e : MemoryMapEntry) (a end : ℕ)
    → a < end
    → end ≤ uint32_max
    → e.len ≤ uint64_max
    → entry_is_malformed e (end - a) ≡ not (entry_fits e a end)
unfolding entry_is_malformed
fits_lem e a end h p q = ground arith

module _ (m : PhysicalMemory) (end : ℕ) (bytes : IsBytes m) (bound : end ≤ uint32_max) where
  abbrev pub added : ℕ → Memory → Memory
  added a s = let e = read_entry m a in add_region s e.base_addr e.len (region_type e)

  malformed_lem :
      (a : ℕ)
      → a < end
      → entry_is_malformed (read_entry m a) (end - a) ≡ not (entry_fits (read_entry m a) a end)
  malformed_lem a h =
      fits_lem (read_entry m a) a end h bound
        (unfold read_entry in omega (arith, read64-lt m (a + 12) bytes))

  pub round-malformed :
      (a : ℕ) (s : Memory)
      → a < end
      → entry_fits (read_entry m a) a end ≡ false
      → read_round m a end s ≡ return malformed_data s
  unfolding read_round
  round-malformed a s h f = pick_then _ _ _ (malformed_lem a h ∙ ap not f)

  pub round-truncated :
      (a : ℕ) (s : Memory)
      → a < end
      → entry_fits (read_entry m a) a end ≡ true
      → (added a s).map_truncated ≡ true
      → read_round m a end s ≡ return malformed_data (added a s)
  unfolding read_round
  round-truncated a s h f t = pick_else _ _ _ (malformed_lem a h ∙ ap not f) ∙ pick_then _ _ _ t

  pub round-continue :
      (a : ℕ) (s : Memory)
      → a < end
      → entry_fits (read_entry m a) a end ≡ true
      → (added a s).map_truncated ≡ false
      → read_round m a end s ≡ continue (a + 4 + (read_entry m a).size) (added a s)
  unfolding read_round
  round-continue a s h f t =
      pick_else _ _ _ (malformed_lem a h ∙ ap not f)
      ∙ pick_else _ _ _ t
      ∙ ap (λ (n : ℕ). continue n (added a s)) (ground (arith, f, bound))

  unfoldable pub after_round : ℕ → Round → Option (Status × Memory)
  after_round fuel (return status t) = some (status, t)
  after_round fuel (continue b t) = read_entries fuel m b end t

  pub enter :
      (fuel a : ℕ) (s : Memory)
      → a < end
      → read_entries (suc fuel) m a end s ≡ after_round fuel (read_round m a end s)
  unfolding read_entries after_round
  enter fuel a s h = ground arith
