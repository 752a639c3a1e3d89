-- ===== src/Memory/Store.antt =====
-- The stored regions after one more entry.
use wig_osx.Base.{
  ℕ, zero, suc, ◌+◌, ◌%◌, ◌≤◌, ◌<◌, ◌≡◌, refl, ◌∙◌, sym, subst, ap, true, false, List, [], ◌∷◌,
  ◌++◌, arith, length, set, take, length-append,
}
use wig_osx.Memory.{
  Memory, Region, RegionType, usable, reserved, store_region, count_region, max_regions,
}

-- The bytes of the regions of a kind.
bytes_of : RegionType → RegionType → ℕ → ℕ
bytes_of usable usable n = n
bytes_of reserved reserved n = n
bytes_of usable reserved n = 0
bytes_of reserved usable n = 0

unfoldable pub total : RegionType → List Region → ℕ
unfolding bytes_of
total k [] = 0
total k (r ∷ rs) = bytes_of k r.kind r.length + total k rs

-- The summary stands for the list of regions: they are stored in order, and the totals are theirs, modulo 2 ^ 64.
pub record Holds (s : Memory) (rs : List Region) : Type 0 where
  pub whole : s.map_truncated ≡ false
  pub cells : length s.regions ≡ max_regions
  pub count : s.region_count ≡ length rs
  pub fits : length rs ≤ max_regions
  pub stored : take (length rs) s.regions ≡ rs
  pub usable_bytes : s.total_usable_bytes ≡ total usable rs % 18446744073709551616
  pub reserved_bytes : s.total_reserved_bytes ≡ total reserved rs % 18446744073709551616

length-set : {A : Type 0} (xs : List A) (i : ℕ) (v : A) → length (set xs i v) ≡ length xs
length-set [] i v = refl
length-set (x ∷ xs) zero v = refl
length-set (x ∷ xs) (suc i) v = ap suc (length-set xs i v)

first : {A : Type 0} → A → List A → A
first d [] = d
first d (x ∷ xs) = x

rest : {A : Type 0} → List A → List A
rest [] = []
rest (x ∷ xs) = xs

take-set :
    {A : Type 0} (ys xs : List A) (v : A)
    → length ys < length xs
    → take (length ys) xs ≡ ys
    → take (length (ys ++ (v ∷ []))) (set xs (length ys) v) ≡ ys ++ (v ∷ [])
unfolding first rest
take-set [] [] v h e = absurd (omega arith)
take-set [] (x ∷ xs) v h e = refl
take-set (y ∷ ys) [] v h e = absurd (omega arith)
take-set (y ∷ ys) (x ∷ xs) v h e =
    let head : x ≡ y = ap (first y) e in
    let tail = take-set ys xs v (omega arith) (ap rest e) in cc (head, tail)

total-append :
    (k : RegionType) (rs : List Region) (r : Region)
    → total k (rs ++ (r ∷ [])) ≡ total k rs + bytes_of k r.kind r.length
unfolding total
total-append k [] r = omega arith
total-append k (x ∷ rs) r = omega (arith, total-append k rs r)

-- Counting leaves the regions alone, and adds to the totals.
record Counted (s c : Memory) (k : RegionType) (n : ℕ) : Type 0 where
  pub whole : c.map_truncated ≡ s.map_truncated
  pub regions : c.regions ≡ s.regions
  pub count : c.region_count ≡ s.region_count
  pub usable_bytes :
      (sum : ℕ)
      → s.total_usable_bytes ≡ sum % 18446744073709551616
      → c.total_usable_bytes ≡ (sum + bytes_of usable k n) % 18446744073709551616
  pub reserved_bytes :
      (sum : ℕ)
      → s.total_reserved_bytes ≡ sum % 18446744073709551616
      → c.total_reserved_bytes ≡ (sum + bytes_of reserved k n) % 18446744073709551616

count_region-Counted : (s : Memory) (n : ℕ) (k : RegionType) → Counted s (count_region s n k) k n
unfolding count_region bytes_of
count_region-Counted s n usable = record {
  whole = refl;
  regions = refl;
  count = refl;
  usable_bytes = λ sum e. omega arith;
  reserved_bytes = λ sum e. omega (arith, e);
}
count_region-Counted s n reserved = record {
  whole = refl;
  regions = refl;
  count = refl;
  usable_bytes = λ sum e. omega (arith, e);
  reserved_bytes = λ sum e. omega arith;
}

stored_lem :
    (s : Memory) (r : Region)
    → s.region_count < max_regions
    → store_region s r
      ≡ record s { regions = set s.regions s.region_count r; region_count = s.region_count + 1 }
unfolding store_region
stored_lem s r h = ground arith

-- A region is stored while there is room.
pub Holds-store :
    (s : Memory) (rs : List Region) (r : Region)
    → Holds s rs
    → length rs < max_regions
    → Holds (store_region (count_region s r.length r.kind) r) (rs ++ (r ∷ []))
Holds-store s rs r h room =
    let c = count_region s r.length r.kind in
    let k = count_region-Counted s r.length r.kind in
    subst (λ u. Holds u (rs ++ (r ∷ []))) (sym (stored_lem c r (omega (arith, k.count, h.count))))
      (record {
        whole = k.whole ∙ h.whole;
        cells = length-set c.regions c.region_count r ∙ ap length k.regions ∙ h.cells;
        count = omega (arith, k.count, h.count, length-append rs (r ∷ []));
        fits = omega (arith, length-append rs (r ∷ []));
        stored =
            rw (k.regions, k.count, h.count)
              (take-set rs s.regions r (omega (arith, h.cells)) h.stored);
        usable_bytes =
            rw (total-append usable rs r) (k.usable_bytes (total usable rs) h.usable_bytes);
        reserved_bytes =
            rw (total-append reserved rs r) (k.reserved_bytes (total reserved rs) h.reserved_bytes);
      })

-- When there is none, the map is marked as cut short.
pub truncated-store :
    (s : Memory) (rs : List Region) (r : Region)
    → Holds s rs
    → length rs ≡ max_regions
    → (store_region (count_region s r.length r.kind) r).map_truncated ≡ true
unfolding store_region
truncated-store s rs r h full =
    let k = count_region-Counted s r.length r.kind in ground (arith, k.count, h.count)
