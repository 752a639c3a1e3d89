-- ===== src/Heap.antt =====
-- The region that backs the kernel heap, src/mm/heap.c. The linker symbols are arguments.
mod Tests
use wig_osx.Base.{
  ℕ, ◌+◌, ◌-◌, ◌%◌, ◌≤◌, ◌<◌, ◌≡◌, refl, sym, subst, ◌∙◌, ap, ◌⊎◌, inl, inr, Bool, true, false,
  ◌&&◌, ◌||◌, not, arith, leb, ltb, ◌==◌, if◌then◌else◌, Option, none, some,
}
use wig_osx.Status.{Status, ok, invalid_argument, already_initialized}

-- The file's static variables.
pub record Heap : Type 0 where
  pub initialized : Bool
  pub start_address : ℕ
  pub end_address : ℕ
  pub capacity : ℕ

unfoldable pub initialize : ℕ → ℕ → Heap → Status × Heap
initialize start end s =
    if s.initialized
    then (already_initialized, s)
    else if start == 0 || end == 0 || leb end start
    then (invalid_argument, s)
    else if not (start % 4096 == 0) || not (end % 4096 == 0)
    then (invalid_argument, s)
    else (
      ok,
      record {
        initialized = true;
        start_address = start;
        end_address = end;
        capacity = end - start;
      },
    )

unfoldable pub get_start_address : Heap → ℕ
get_start_address s = if not s.initialized then 0 else s.start_address

unfoldable pub get_end_address : Heap → ℕ
get_end_address s = if not s.initialized then 0 else s.end_address

unfoldable pub get_capacity : Heap → ℕ
get_capacity s = if not s.initialized then 0 else s.capacity

-- `kmalloc`: `none` for `NULL`.
unfoldable pub kmalloc : Heap → ℕ → Option ℕ × Heap
kmalloc s size = (none, s)

unfoldable pub kfree : Heap → ℕ → Heap
kfree s pointer = s

-- A heap that reports a region reports one of whole pages, above address 0, whose size is its capacity.
abbrev pub IsRegion : Heap → Type 0
IsRegion s =
    (get_start_address s + get_capacity s ≡ get_end_address s)
    × (get_start_address s % 4096 ≡ 0)
    × (get_capacity s % 4096 ≡ 0)
    × ((s.initialized && (get_start_address s == 0 || get_capacity s == 0)) ≡ false)

-- The region of a heap that starts.
abbrev region : ℕ → ℕ → Heap
region start end = record {
  initialized = true;
  start_address = start;
  end_address = end;
  capacity = end - start;
}

accepts : ℕ → ℕ → Bool
accepts start end = (ltb 0 start && ltb start end) && (start % 4096 == 0 && end % 4096 == 0)

region-IsRegion : (start end : ℕ) → accepts start end ≡ true → IsRegion (region start end)
unfolding accepts get_start_address get_end_address get_capacity
region-IsRegion start end h =
    (ground (arith, h), ground (arith, h), ground (arith, h), ground (arith, h))

choose-IsRegion :
    (b c : Bool) (s t : Heap)
    → IsRegion s
    → (c ≡ true → IsRegion t)
    → let r : Status × Heap =
        if b then (already_initialized, s) else if c then (ok, t) else (invalid_argument, s) in
      IsRegion r.1
choose-IsRegion true c s t v h = v
choose-IsRegion false true s t v h = h refl
choose-IsRegion false false s t v h = v

initialize_lem :
    (start end : ℕ) (s : Heap)
    → initialize start end s ≡ (
        if s.initialized
        then (already_initialized, s)
        else if accepts start end
        then (ok, region start end)
        else (invalid_argument, s))
unfolding initialize accepts
initialize_lem start end s = ground arith

-- `heap_initialize` keeps a valid heap valid on every branch. It succeeds exactly on a heap that was not
-- initialised, for a region that is not empty, not at address 0, and of whole pages; any other call changes nothing.
pub initialize-IsRegion :
    (start end : ℕ) (s : Heap)
    → IsRegion s
    → IsRegion (initialize start end s).1
      × ((initialize start end s) ≡ (
          if s.initialized
          then (already_initialized, s)
          else if (ltb 0 start && ltb start end) && (start % 4096 == 0 && end % 4096 == 0)
          then (
            ok,
            record {
              initialized = true;
              start_address = start;
              end_address = end;
              capacity = end - start;
            },
          )
          else (invalid_argument, s)))
unfolding accepts
initialize-IsRegion start end s v =
    let e = initialize_lem start end s in
    (
      subst (λ (r : Status × Heap). IsRegion r.1) (sym e)
          (choose-IsRegion s.initialized (accepts start end) s (region start end) v
            (region-IsRegion start end)),
      e,
    )
