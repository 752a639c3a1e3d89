-- ===== src/Pmm/Search.antt =====
-- The two search loops of `pmm_allocate_frame`.
use wig_osx.Base.{
  ℕ, zero, suc, ◌+◌, ◌-◌, ◌≤◌, ◌<◌, ◌≡◌, refl, ◌⊎◌, inl, inr, true, false, Option, none, some,
  arith, Bool-cases, ap,
}
use wig_osx.Pmm.Boot.{IsValid}
use wig_osx.Pmm.{Pmm, is_frame_index_used, take_frame, search_from, allocate_frame}

-- A search finds the first frame of its range that is not in use, or there is none.
abbrev Searched : ℕ → ℕ → Pmm → Option (ℕ × Pmm) → Type 0
Searched n i s r =
    ((r ≡ none) × ((g : ℕ) → i ≤ g → g < i + n → is_frame_index_used s g ≡ true))
    ⊎ ((f : ℕ) × (i ≤ f)
        × (f < i + n)
        × (is_frame_index_used s f ≡ false)
        × ((g : ℕ) → i ≤ g → g < f → is_frame_index_used s g ≡ true)
        × (r ≡ some (take_frame s f)))

search_from-Searched : (n i : ℕ) (s : Pmm) → Searched n i s (search_from n i s)
unfolding search_from
search_from-Searched zero i s = inl (refl, λ g h k. absurd (omega arith))
search_from-Searched (suc n) i s = elim (Bool-cases (is_frame_index_used s i)) [
  | inr e ↦ inr (i, omega arith, omega arith, e, λ g h k. absurd (omega arith), ground arith)
  | inl e ↦ elim (search_from-Searched n (suc i) s) [
    | inl (r, all) ↦ inl (ground arith, λ g h k. ground (arith, all g, e, at i g))
    | inr (f, lo, hi, un, all, r) ↦
        inr
          (f, omega arith, omega arith, un, λ g h k. ground (arith, all g, e, at i g), ground arith)
  ]
]
  where
    at : (i g : ℕ) → i ≡ g → is_frame_index_used s i ≡ is_frame_index_used s g
    at i g e = ap (is_frame_index_used s) e

-- What `pmm_allocate_frame` does: the first unused frame at or after the cursor, else the first before
-- it; it fails when there is none.
module _ (s : Pmm) (v : IsValid s) where
  pub allocate_cases :
      ((allocate_frame s false ≡ none)
        × ((g : ℕ) → g < s.total_frames → is_frame_index_used s g ≡ true))
      ⊎ ((f : ℕ) × (f < s.total_frames)
          × (is_frame_index_used s f ≡ false)
          × (allocate_frame s false ≡ some (take_frame s f)))
  unfolding allocate_frame
  allocate_cases =
      elim (search_from-Searched (s.total_frames - s.next_search_frame) s.next_search_frame s) [
        | inr (f, lo, hi, un, all, r) ↦
            inr (f, omega (arith, v.cursor), un, ground (arith, v.ready))
        | inl (r, all) ↦ elim (search_from-Searched s.next_search_frame 0 s) [
          | inr (f, lo, hi, un, below, q) ↦
              inr (f, omega (arith, v.cursor), un, ground (arith, v.ready))
          | inl (q, below) ↦ inl (ground (arith, v.ready), λ g h. ground (arith, all g, below g))
        ]
      ]
