-- ===== src/Memory/Read.antt =====
-- How reading the boot loader's map ends, and that it ends.
use wig_osx.Base.{
  ℕ, zero, suc, ◌+◌, ◌≤◌, ◌<◌, ◌≡◌, ◌∙◌, sym, subst, ap, inl, inr, true, false, List, [], ◌∷◌, ◌++◌,
  arith, ltb, ◌==◌, if◌then◌else◌, Bool-cases, ltb→lt, uint32_max, length, append-nil, append_cons,
  some,
}
use wig_osx.Memory.{
  Memory, Region, add_region, region_type, read_entries, max_regions, store_region, count_region,
}
use wig_osx.Memory.Store.{Holds, Holds-store, truncated-store}
use wig_osx.Memory.Walk.{
  Walked, here, next, Outcome, accepted, refused, entry_fits, region_of, regions_of, added,
  after_round, enter, round-malformed, round-truncated, round-continue,
}
use wig_osx.Multiboot.{PhysicalMemory, IsBytes, MemoryMapEntry, read_entry}
use wig_osx.Status.{Status, ok, malformed_data}

module _ (m : PhysicalMemory) (end : ℕ) (bytes : IsBytes m) (bound : end ≤ uint32_max) where
  -- One more entry in front.
  extend :
      (a : ℕ) (rs qs : List Region) (r : Status × Memory)
      → entry_fits (read_entry m a) a end ≡ true
      → ((es : List MemoryMapEntry) → qs ++ regions_of es ≡ rs ++ regions_of (read_entry m a ∷ es))
      → Outcome m end (a + 4 + (read_entry m a).size) qs r
      → Outcome m end a rs r
  extend a rs qs r f e (accepted es t w h) =
      accepted (read_entry m a ∷ es) t (next a es end f w) (subst (Holds t) (e es) h)
  extend a rs qs r f e (refused es b t w h (inl n)) =
      refused (read_entry m a ∷ es) b t (next a es b f w) h (inl n)
  extend a rs qs r f e (refused es b t w h (inr (n, full))) =
      refused (read_entry m a ∷ es) b t (next a es b f w) h (inr (n, sym (ap length (e es)) ∙ full))

  abbrev pub Ends : ℕ → ℕ → Memory → List Region → Type 0
  Ends fuel a s rs =
      (r : Status × Memory) × (read_entries fuel m a end s ≡ some r) × Outcome m end a rs r

  added-empty :
      (a : ℕ) (s : Memory) → ((read_entry m a).len == 0) ≡ true → added m end bytes bound a s ≡ s
  unfolding add_region
  added-empty a s h = ground (arith, h)

  added-store :
      (a : ℕ) (s : Memory)
      → ((read_entry m a).len == 0) ≡ false
      → added m end bytes bound a s
        ≡ store_region
            (count_region s (read_entry m a).len (region_type (read_entry m a)))
            (region_of (read_entry m a))
  unfolding add_region
  added-store a s h = ground (arith, h)

  pass :
      (fuel a : ℕ) (s : Memory) (rs qs : List Region)
      → a < end
      → entry_fits (read_entry m a) a end ≡ true
      → Holds (added m end bytes bound a s) qs
      → ((es : List MemoryMapEntry) → qs ++ regions_of es ≡ rs ++ regions_of (read_entry m a ∷ es))
      → Ends fuel (a + 4 + (read_entry m a).size) (added m end bytes bound a s) qs
      → Ends (suc fuel) a s rs
  unfolding after_round
  pass fuel a s rs qs h f held e (r, run, o) = (
    r,
    enter m end bytes bound fuel a s h
        ∙ ap (after_round m end bytes bound fuel)
            (round-continue m end bytes bound a s h f held.whole)
        ∙ run,
    extend a rs qs r f e o,
  )

  finished : (fuel a : ℕ) (s : Memory) → a ≡ end → read_entries fuel m a end s ≡ some (ok, s)
  unfolding read_entries
  finished zero a s e = ground arith
  finished (suc fuel) a s e = ground arith

  at_end : (fuel a : ℕ) (s : Memory) (rs : List Region) → a ≡ end → Holds s rs → Ends fuel a s rs
  unfolding regions_of
  at_end fuel a s rs e held = (
    (ok, s),
    finished fuel a s e,
    accepted [] s (subst (λ b. Walked m end b [] end) (sym e) (here end))
        (subst (Holds s) (sym (append-nil rs)) held),
  )

  malformed_here :
      (fuel a : ℕ) (s : Memory) (rs : List Region)
      → a < end
      → entry_fits (read_entry m a) a end ≡ false
      → Ends (suc fuel) a s rs
  unfolding after_round
  malformed_here fuel a s rs h f = (
    (malformed_data, s),
    enter m end bytes bound fuel a s h
        ∙ ap (after_round m end bytes bound fuel) (round-malformed m end bytes bound a s h f),
    refused [] a s (here a) h (inl f),
  )

  full_here :
      (fuel a : ℕ) (s : Memory) (rs : List Region)
      → a < end
      → entry_fits (read_entry m a) a end ≡ true
      → ((read_entry m a).len == 0) ≡ false
      → length rs ≡ max_regions
      → Holds s rs
      → Ends (suc fuel) a s rs
  unfolding after_round regions_of
  full_here fuel a s rs h f n full held =
      let cut =
        ap (λ (u : Memory). u.map_truncated) (added-store a s n)
        ∙ truncated-store s rs (region_of (read_entry m a)) held full in
      (
        (malformed_data, added m end bytes bound a s),
        enter m end bytes bound fuel a s h
            ∙ ap (after_round m end bytes bound fuel)
                (round-truncated m end bytes bound a s h f cut),
        refused [] a (added m end bytes bound a s) (here a) h
            (inr (n, ap length (append-nil rs) ∙ full)),
      )

  regions-empty :
      (a : ℕ) (rs : List Region) (es : List MemoryMapEntry)
      → ((read_entry m a).len == 0) ≡ true
      → rs ++ regions_of es ≡ rs ++ regions_of (read_entry m a ∷ es)
  unfolding regions_of
  regions-empty a rs es n =
      ap (λ b. rs ++ (if b then regions_of es else region_of (read_entry m a) ∷ regions_of es))
        (sym n)

  regions-store :
      (a : ℕ) (rs : List Region) (es : List MemoryMapEntry)
      → ((read_entry m a).len == 0) ≡ false
      → (rs ++ (region_of (read_entry m a) ∷ [])) ++ regions_of es
        ≡ rs ++ regions_of (read_entry m a ∷ es)
  unfolding regions_of
  regions-store a rs es n =
      sym (append_cons rs (region_of (read_entry m a)) (regions_of es))
      ∙ ap (λ b. rs ++ (if b then regions_of es else region_of (read_entry m a) ∷ regions_of es))
          (sym n)

  pub walk :
      (fuel a : ℕ) (s : Memory) (rs : List Region)
      → a ≤ end
      → end ≤ a + fuel
      → Holds s rs
      → Ends fuel a s rs
  walk zero a s rs h p held = at_end 0 a s rs (omega arith) held
  walk (suc fuel) a s rs h p held = elim (Bool-cases (ltb a end)) [
    | inr e ↦ at_end (suc fuel) a s rs (ground (arith, e)) held
    | inl e ↦ elim (Bool-cases (entry_fits (read_entry m a) a end)) [
      | inr f ↦ malformed_here fuel a s rs (ltb→lt a end e) f
      | inl f ↦
          let lo : a + 4 + (read_entry m a).size ≤ end = ground (arith, f) in
          elim (Bool-cases ((read_entry m a).len == 0)) [
            | inl n ↦
                let kept = subst (λ u. Holds u rs) (sym (added-empty a s n)) held in
                pass fuel a s rs rs (ltb→lt a end e) f kept (λ es. regions-empty a rs es n)
                  (walk fuel (a + 4 + (read_entry m a).size) (added m end bytes bound a s) rs lo
                    (omega arith) kept)
            | inr n ↦ elim (Bool-cases (ltb (length rs) max_regions)) [
              | inl room ↦
                  let r = region_of (read_entry m a) in
                  let kept =
                    subst (λ u. Holds u (rs ++ (r ∷ []))) (sym (added-store a s n))
                      (Holds-store s rs r held (ltb→lt (length rs) max_regions room)) in
                  pass fuel a s rs (rs ++ (r ∷ [])) (ltb→lt a end e) f kept
                    (λ es. regions-store a rs es n)
                    (walk fuel (a + 4 + (read_entry m a).size) (added m end bytes bound a s)
                      (rs ++ (r ∷ [])) lo (omega arith) kept)
              | inr full ↦
                  full_here fuel a s rs (ltb→lt a end e) f n (ground (arith, full, held.fits)) held
            ]
          ]
    ]
  ]
