-- ===== src/Pmm/Loaded.antt =====
-- The boot loader's map, read by `memory_initialize` and then given to `pmm_initialize`.
pub mod Tests
use wig_osx.Base.{
  ℕ, zero, suc, ◌+◌, ◌*◌, ◌≤◌, ◌<◌, ◌≡◌, refl, sym, ◌∙◌, ap, subst, inl, inr, Bool, true, false,
  ◌&&◌, ◌||◌, not, Option, none, some, List, [], ◌∷◌, arith, leb, ◌==◌, if◌then◌else◌, pick_then,
  pick_else, Bool-cases, length, take, get_elem?, uint32_max, uint64_max,
}
use wig_osx.Memory
use wig_osx.Memory.Start.{
  Started, null_info, no_map, past_end, bad_entry, no_regions, good_map, map_end,
  initialize-Started,
}
use wig_osx.Memory.Store.{Holds}
use wig_osx.Memory.Walk.{Walked, here, next, region_of, regions_of}
use wig_osx.Memory.{Memory, Region, get_region, region_type}
use wig_osx.Multiboot.{
  PhysicalMemory, IsBytes, MemoryMapEntry, read_info, read_entry, read64-lt, memory_available,
}
use wig_osx.Pmm.Boot.{IsValid, is_free, initialize-is_free, initialize-IsValid}
use wig_osx.Pmm.Init.{
  RegionsFit, RegionFits, LayoutFits, region_gives, some_region_gives, reserved_frame,
}
use wig_osx.Pmm.Ranges.{inside}
use wig_osx.Pmm.{Pmm, Layout, max_frames, initialize, is_frame_allocated}
use wig_osx.Status.{Status, ok, kernel_status_is_ok}

-- All of frame `g` lies in the memory of an entry that is available.
abbrev pub entry_gives : MemoryMapEntry → ℕ → Bool
entry_gives e g = e.kind == memory_available && inside e.base_addr (e.base_addr + e.len) g

unfoldable pub some_entry_gives : List MemoryMapEntry → ℕ → Bool
some_entry_gives [] g = false
some_entry_gives (e ∷ es) g = entry_gives e g || some_entry_gives es g

any_gives : List Region → ℕ → Bool
any_gives [] g = false
any_gives (r ∷ rs) g = region_gives (some r) g || any_gives rs g

first_gives : ℕ → List Region → ℕ → Bool
first_gives zero rs g = false
first_gives (suc n) rs g = region_gives (get_elem? rs n) g || first_gives n rs g

swap_or : (a b c : Bool) → (a || (b || c)) ≡ (b || (a || c))
swap_or true true c = refl
swap_or true false c = refl
swap_or false b c = refl

first_gives_cons :
    (n : ℕ) (r : Region) (rs : List Region) (g : ℕ)
    → first_gives (suc n) (r ∷ rs) g ≡ (region_gives (some r) g || first_gives n rs g)
unfolding first_gives
first_gives_cons zero r rs g = refl
first_gives_cons (suc n) r rs g =
    ap (λ b. region_gives (get_elem? rs n) g || b) (first_gives_cons n r rs g)
    ∙ swap_or (region_gives (get_elem? rs n) g) (region_gives (some r) g) (first_gives n rs g)

first_gives-any_gives : (rs : List Region) (g : ℕ) → first_gives (length rs) rs g ≡ any_gives rs g
unfolding first_gives any_gives
first_gives-any_gives [] g = refl
first_gives-any_gives (r ∷ rs) g =
    first_gives_cons (length rs) r rs g
    ∙ ap (λ b. region_gives (some r) g || b) (first_gives-any_gives rs g)

get_elem?-take :
    {A : Type 0} (n : ℕ) (xs : List A) (i : ℕ) → i < n → get_elem? (take n xs) i ≡ get_elem? xs i
get_elem?-take zero xs i h = absurd (omega (arith, h))
get_elem?-take (suc n) [] i h = refl
get_elem?-take (suc n) (x ∷ xs) zero h = refl
get_elem?-take (suc n) (x ∷ xs) (suc i) h = get_elem?-take n xs i (omega (arith, h))

module _ (mem : Memory) (rs : List Region) (h : Holds mem rs) where
  get_region_lem : (i : ℕ) → i < length rs → get_region mem i ≡ get_elem? rs i
  unfolding get_region
  get_region_lem i lt =
      pick_else (leb mem.region_count i) _ _ (ground (arith, h.count, lt))
      ∙ sym (get_elem?-take (length rs) mem.regions i lt)
      ∙ ap (λ l. get_elem? l i) h.stored

  some_region_gives-first_gives :
      (n g : ℕ) → n ≤ length rs → some_region_gives n mem g ≡ first_gives n rs g
  unfolding first_gives
  some_region_gives-first_gives zero g le = refl
  some_region_gives-first_gives (suc n) g le =
      ap (λ o. region_gives o g || some_region_gives n mem g) (get_region_lem n (omega (arith, le)))
      ∙ ap (λ b. region_gives (get_elem? rs n) g || b)
          (some_region_gives-first_gives n g (omega (arith, le)))

  fits_lem : ((i : ℕ) → RegionFits (get_elem? rs i)) → RegionsFit mem
  unfolding get_region
  fits_lem all i = elim (Bool-cases (leb mem.region_count i)) [
    | inl e ↦
        subst RegionFits (sym (pick_then (leb mem.region_count i) none (get_elem? mem.regions i) e))
          _
    | inr e ↦ subst RegionFits (sym (get_region_lem i (ground (arith, e, h.count)))) (all i)
  ]

any_gives-regions_of :
    (es : List MemoryMapEntry) (g : ℕ) → any_gives (regions_of es) g ≡ some_entry_gives es g
unfolding any_gives regions_of some_entry_gives region_type
any_gives-regions_of [] g = refl
any_gives-regions_of (e ∷ es) g = ground (arith, any_gives-regions_of es g)

cons-RegionFits :
    (b : Bool) (r : Region) (rs : List Region) (i : ℕ)
    → RegionFits (some r)
    → ((k : ℕ) → RegionFits (get_elem? rs k))
    → RegionFits (get_elem? (if b then rs else r ∷ rs) i)
cons-RegionFits true r rs i h all = all i
cons-RegionFits false r rs zero h all = h
cons-RegionFits false r rs (suc i) h all = all i

regions_of-RegionFits :
    (m : PhysicalMemory) (end a b : ℕ) (es : List MemoryMapEntry) (i : ℕ)
    → IsBytes m
    → Walked m end a es b
    → RegionFits (get_elem? (regions_of es) i)
unfolding regions_of read_entry
regions_of-RegionFits m end a b _ i bytes (here _) = _
regions_of-RegionFits m end a b _ i bytes (next _ es _ f w) =
    let e = read_entry m a in
    let base = read64-lt m (a + 4) bytes in
    let len = read64-lt m (a + 12) bytes in
    cons-RegionFits (e.len == 0) (region_of e) (regions_of es) i
      (omega (arith, base), omega (arith, len)) (λ k. regions_of-RegionFits m end _ b es k bytes w)

-- The entries of a map that was accepted.
abbrev pub Accepted : PhysicalMemory → ℕ → Memory → List MemoryMapEntry → Type 0
Accepted m a mem es =
    Walked m (map_end (read_info m a)) (read_info m a).mmap_addr es (map_end (read_info m a))
    × Holds mem (regions_of es)

not_ok : {A : Type 0} (status : Status) → kernel_status_is_ok status ≡ false → status ≡ ok → A
not_ok status h e = absurd (ground (arith, h, ap kernel_status_is_ok e))

Started-Accepted :
    (m : PhysicalMemory) (a : ℕ) (r : Status × Memory)
    → Started m a r
    → r.0 ≡ ok
    → (es : List MemoryMapEntry) × Accepted m a r.1 es
Started-Accepted m a _ (null_info t z) e = not_ok _ refl e
Started-Accepted m a _ (no_map t p z) e = not_ok _ refl e
Started-Accepted m a _ (past_end t h z) e = not_ok _ refl e
Started-Accepted m a _ (bad_entry t f z) e = not_ok _ refl e
Started-Accepted m a _ (no_regions es t f w z) e = not_ok _ refl e
Started-Accepted m a _ (good_map es t f w pos h i) e = (es, (w, h))

abbrev content : Status × Memory → Option (Status × Memory) → Status × Memory
content d none = d
content d (some r) = r

initialize-Accepted :
    (m : PhysicalMemory) (a : ℕ) (mem : Memory)
    → IsBytes m
    → Memory.initialize m a ≡ some (ok, mem)
    → (es : List MemoryMapEntry) × Accepted m a mem es
initialize-Accepted m a mem bytes e =
    let (r, f, s) = initialize-Started m a bytes in
    let same : r ≡ (ok, mem) = ap (content (ok, mem)) (sym f ∙ e) in
    Started-Accepted m a (ok, mem) (subst (Started m a) same s) refl

-- After `memory_initialize` and then `pmm_initialize` have succeeded on the boot loader's data, whatever bytes memory
-- holds: the map's entries follow one another, each of them whole, up to its end, and a frame below 4 GiB is free exactly when
-- all of it lies in one entry that is available and no byte of it belongs to low memory, the kernel image, the two
-- bitmaps, the Multiboot information structure, or the map; the counters are
-- right, and no frame is handed out.
pub initialize-entries :
    (m : PhysicalMemory) (l : Layout) (a g : ℕ) (mem : Memory) (old : Pmm)
    → IsBytes m
    → LayoutFits l
    → a ≤ uint32_max
    → g < max_frames
    → Memory.initialize m a ≡ some (ok, mem)
    → (initialize m l mem a old).0 ≡ ok
    → (es : List MemoryMapEntry) × Walked m
        (map_end (read_info m a))
        (read_info m a).mmap_addr
        es
        (map_end (read_info m a))
      × (is_free (initialize m l mem a old).1 g
          ≡ (some_entry_gives es g && not (reserved_frame m l a g)))
      × IsValid (initialize m l mem a old).1
      × ((h : ℕ) → is_frame_allocated (initialize m l mem a old).1 h ≡ false)
initialize-entries m l a g mem old bytes layout address below loaded done =
    let (es, (walked, h)) = initialize-Accepted m a mem bytes loaded in
    let fits =
      fits_lem mem (regions_of es) h (λ i. regions_of-RegionFits m _ _ _ es i bytes walked) in
    let gives =
      ap (λ n. some_region_gives n mem g) h.count
      ∙ some_region_gives-first_gives mem (regions_of es) h (length (regions_of es)) g (omega arith)
      ∙ first_gives-any_gives (regions_of es) g
      ∙ any_gives-regions_of es g in
    (
      es,
      walked,
      initialize-is_free m l mem a old bytes layout fits address g below done
          ∙ ap (λ b. b && not (reserved_frame m l a g)) gives,
      (initialize-IsValid m l mem a old bytes layout fits address done).0,
      (initialize-IsValid m l mem a old bytes layout fits address done).1,
    )
