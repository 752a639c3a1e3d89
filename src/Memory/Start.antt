-- ===== src/Memory/Start.antt =====
-- What `memory_initialize` reports and stores.
use wig_osx.Base.{
  pick_then, pick_else, ℕ, ◌+◌, ◌-◌, ◌≤◌, ◌<◌, ◌≡◌, refl, ◌∙◌, sym, subst, ap, inl, inr, Bool, true,
  false, ◌||◌, List, [], arith, ltb, ◌==◌, if◌then◌else◌, Bool-cases, add32, uint32_max, length,
  Option, some, bit_and,
}
use mathlib.Core.Option
use wig_osx.Memory.{
  Memory, read_entries, initialize, reset_summary, set_basic, set_available, read_multiboot_map,
  check_count,
}
use wig_osx.Memory.Read.{walk}
use wig_osx.Memory.Store.{Holds, total}
use wig_osx.Memory.Walk.{Walked, Outcome, accepted, refused, regions_of}
use wig_osx.Multiboot.{
  PhysicalMemory, IsBytes, MemoryMapEntry, MultibootInfo, read_info, read32-lt, info_memory_map,
}
use wig_osx.Status.{Status, ok, invalid_argument, unavailable, malformed_data}

abbrev pub map_end : MultibootInfo → ℕ
map_end info = info.mmap_addr + info.mmap_length

-- The information has no memory map.
abbrev pub lacks_map : MultibootInfo → Bool
lacks_map info =
    bit_and info.flags info_memory_map == 0 || info.mmap_addr == 0 || info.mmap_length == 0

-- There is boot information, and it has a memory map.
pub record HasMap (m : PhysicalMemory) (a : ℕ) : Type 0 where
  pub address : 0 < a
  pub map : lacks_map (read_info m a) ≡ false

-- There is a memory map, and it ends below 2 ^ 32.
pub record MapFits (m : PhysicalMemory) (a : ℕ) : Type 0 where
  pub has : HasMap m a
  pub fits : map_end (read_info m a) ≤ uint32_max

-- The status and the state that `memory_initialize` ends with, and why.
pub data Started (m : PhysicalMemory) (a : ℕ) : Status × Memory → Type 0 where
  null_info : (t : Memory) → a ≡ 0 → Started m a (invalid_argument, t)
  no_map : (t : Memory) → 0 < a → lacks_map (read_info m a) ≡ true → Started m a (unavailable, t)
  past_end :
      (t : Memory)
      → HasMap m a
      → uint32_max < map_end (read_info m a)
      → Started m a (malformed_data, t)
  bad_entry :
      (t : Memory)
      → MapFits m a
      → Outcome m (map_end (read_info m a)) (read_info m a).mmap_addr [] (malformed_data, t)
      → Started m a (malformed_data, t)
  no_regions :
      (es : List MemoryMapEntry) (t : Memory)
      → MapFits m a
      → Walked m (map_end (read_info m a)) (read_info m a).mmap_addr es (map_end (read_info m a))
      → length (regions_of es) ≡ 0
      → Started m a (malformed_data, t)
  good_map :
      (es : List MemoryMapEntry) (t : Memory)
      → MapFits m a
      → Walked m (map_end (read_info m a)) (read_info m a).mmap_addr es (map_end (read_info m a))
      → 0 < length (regions_of es)
      → Holds t (regions_of es)
      → t.initialized ≡ true
      → Started m a (ok, t)

Holds-if : (b : Bool) (s t : Memory) → Holds s [] → Holds t [] → Holds (if b then s else t) []
Holds-if true s t h p = h
Holds-if false s t h p = p

Holds-start :
    (basic : Bool) (lower upper : ℕ)
    → Holds
        (record reset_summary { basic_available = basic; lower_kb = lower; upper_kb = upper })
        []
unfolding total reset_summary
Holds-start basic lower upper = record {
  whole = refl;
  cells = refl;
  count = refl;
  fits = omega arith;
  stored = refl;
  usable_bytes = refl;
  reserved_bytes = refl;
}

Holds-basic : (info : MultibootInfo) → Holds (set_basic info reset_summary) []
unfolding set_basic reset_summary
Holds-basic info =
    Holds-if (bit_and info.flags 1 == 0) _ _ (Holds-start false 0 0)
      (Holds-start true info.mem_lower info.mem_upper)

count_lem :
    (m : PhysicalMemory) (a : ℕ) (r : Status × Memory)
    → MapFits m a
    → Outcome m (map_end (read_info m a)) (read_info m a).mmap_addr [] r
    → Started m a (set_available (check_count r))
unfolding set_available check_count
count_lem m a _ f (refused es b t w h why) = bad_entry t f (refused es b t w h why)
count_lem m a _ f (accepted es t w h) = elim (Bool-cases (t.region_count == 0)) [
  | inl e ↦
      subst (λ r. Started m a (set_available r))
        (sym (pick_then (t.region_count == 0) (malformed_data, t) (ok, t) e))
        (no_regions es t f w (ground (arith, e, h.count)))
  | inr e ↦
      subst (λ r. Started m a (set_available r))
        (sym (pick_else (t.region_count == 0) (malformed_data, t) (ok, t) e))
        (good_map es (record t { map_available = true; initialized = true }) f w
          (ground (arith, e, h.count))
          (record {
            whole = h.whole;
            cells = h.cells;
            count = h.count;
            fits = h.fits;
            stored = h.stored;
            usable_bytes = h.usable_bytes;
            reserved_bytes = h.reserved_bytes;
          })
          refl)
]

info_words :
    (m : PhysicalMemory) (a : ℕ)
    → IsBytes m
    → ((read_info m a).mmap_addr ≤ uint32_max) × ((read_info m a).mmap_length ≤ uint32_max)
unfolding read_info
info_words m a b = (omega (arith, read32-lt m (a + 48) b), omega (arith, read32-lt m (a + 44) b))

abbrev Starts : PhysicalMemory → ℕ → Option (Status × Memory) → Type 0
Starts m a o = (r : Status × Memory) × (o ≡ some r) × Started m a r

read_lem :
    (m : PhysicalMemory) (a : ℕ)
    → IsBytes m
    → HasMap m a
    → Starts m a (
        Option.map set_available
          (read_multiboot_map m (read_info m a) (set_basic (read_info m a) reset_summary)))
unfolding read_multiboot_map set_available
read_lem m a b has =
    let info = read_info m a in
    let s = set_basic info reset_summary in
    let (lo, hi) = info_words m a b in
    let present : (info.mmap_addr == 0 || info.mmap_length == 0) ≡ false =
      ground (arith, has.map) in
    elim (Bool-cases (ltb (uint32_max - info.mmap_addr) info.mmap_length)) [
      | inl big ↦ (
        _,
        ap (Option.map set_available) (pick_else _ _ _ present ∙ pick_then _ _ _ big),
        past_end s has (ground (arith, big)),
      )
      | inr small ↦
          let fits : map_end info ≤ uint32_max = ground (arith, small, lo) in
          let (r, run, o) =
            walk m (map_end info) b fits info.mmap_length info.mmap_addr s [] (omega arith)
              (omega arith) (Holds-basic info) in
          let whole : add32 info.mmap_addr info.mmap_length ≡ map_end info = omega arith in
          (
            set_available (check_count r),
            ap (Option.map set_available) (
                pick_else _ _ _ present
                ∙ pick_else _ _ _ small
                ∙ ap
                    (λ end.
                      Option.map check_count (read_entries info.mmap_length m info.mmap_addr end s))
                    whole
                ∙ ap (Option.map check_count) run),
            count_lem m a r (record { has = has; fits = fits }) o,
          )
    ]

-- `memory_initialize`, whatever bytes memory holds, ends, and its status says what it found. It succeeds only if
-- the address is not 0 and the boot information there has a memory map: its flag is set, and its address
-- and length are not 0. Then the map ends below 2 ^ 32, its entries follow one another up to its end, each of them whole and
-- with a region below 2 ^ 64, and then exactly the regions that are not empty are stored, 1 to 32 of them, in
-- order, with their total sizes by kind. Otherwise the status is: no address given; no map; or malformed
-- data of a map that is there, since it passes 2 ^ 32, an entry does not fit, a region is one too many, or there are none.
pub initialize-Started :
    (m : PhysicalMemory) (a : ℕ)
    → IsBytes m
    → (r : Status × Memory) × (initialize m a ≡ some r) × Started m a r
unfolding initialize
initialize-Started m a b = elim (Bool-cases (a == 0)) [
  | inl z ↦ (_, pick_then _ _ _ z, null_info reset_summary (ground (arith, z)))
  | inr z ↦ elim (Bool-cases (lacks_map (read_info m a))) [
    | inl e ↦ (_, pick_else _ _ _ z ∙ pick_then _ _ _ e, no_map _ (ground (arith, z)) e)
    | inr e ↦
        let (r, run, o) = read_lem m a b (record { address = ground (arith, z); map = e }) in
        (r, pick_else _ _ _ z ∙ pick_else _ _ _ e ∙ run, o)
  ]
]
