-- ===== src/Pmm/Frames.antt =====
-- What marking one frame does to the frames in use and to the counters.
use wig_osx.Base.{
  ℕ, zero, suc, ◌+◌, ◌≤◌, ◌<◌, ◌≡◌, refl, inl, inr, ◌⊎◌, ◌≢◌, Bool, true, false, ◌&&◌, not, arith,
  ◌==◌, if◌then◌else◌, Bool-cases,
}
use wig_osx.Pmm.Bitmap.{Words, test, mark, unmark, test-mark, test-unmark}
use wig_osx.Pmm.{
  Pmm, max_frames, is_valid_frame_index, is_frame_index_used, mark_frame_used, mark_frame_free,
  mark_frame_allocated, mark_frame_unallocated,
}

-- How many of the frames below `n` satisfy a test.
unfoldable pub count : (ℕ → Bool) → ℕ → ℕ
count p zero = 0
count p (suc n) = (if p n then 1 else 0) + count p n

pub count-le : (p : ℕ → Bool) (n : ℕ) → count p n ≤ n
unfolding count
count-le p zero = omega arith
count-le p (suc n) = ground (arith, count-le p n)

-- A test that changes at one place, from false to true, counts one more.
module _ (p q : ℕ → Bool) (i : ℕ) (same : (g : ℕ) → q g ≡ (if i == g then true else p g)) where
  count_above : (n : ℕ) → n ≤ i → count q n ≡ count p n
  unfolding count
  count_above zero h = refl
  count_above (suc n) h = ground (arith, same n, count_above n)

  pub count_grows : (n : ℕ) → i < n → p i ≡ false → count q n ≡ suc (count p n)
  unfolding count
  count_grows zero h e = absurd (omega arith)
  count_grows (suc n) h e = ground (arith, same n, count_above n, count_grows n)

==-or-ne : (a b : ℕ) → (a ≡ b) ⊎ (a ≢ b)
==-or-ne a b = ground arith

-- Some frame satisfies the test when the count is not 0, and then the count is not 0.
pub count-pos : (p : ℕ → Bool) (n i : ℕ) → i < n → p i ≡ true → 0 < count p n
unfolding count
count-pos p zero i h e = absurd (omega arith)
count-pos p (suc n) i h e = ground (arith, count-pos p n i)

pub count-lt : (p : ℕ → Bool) (n i : ℕ) → i < n → p i ≡ false → count p n < n
unfolding count
count-lt p zero i h e = absurd (omega arith)
count-lt p (suc n) i h e = elim (==-or-ne i n) [
  | inl same ↦ ground (arith, count-le p n)
  | inr other ↦ ground (arith, count-lt p n i (omega arith))
]

pub count-zero : (p : ℕ → Bool) (n : ℕ) → ((i : ℕ) → i < n → p i ≡ false) → count p n ≡ 0
unfolding count
count-zero p zero h = refl
count-zero p (suc n) h = ground (arith, h n, count-zero p n (λ i q. h i (omega arith)))

pub count_witness : (p : ℕ → Bool) (n : ℕ) → 0 < count p n → (i : ℕ) × (i < n) × (p i ≡ true)
unfolding count
count_witness p zero h = absurd (omega arith)
count_witness p (suc n) h = elim (Bool-cases (p n)) [
  | inl e ↦ (n, omega arith, e)
  | inr e ↦ let (i, lt, yep) = count_witness p n (ground arith) in (i, omega arith, yep)
]

-- Frames not in use.
abbrev pub unused : Pmm → ℕ → Bool
unused s f = not (is_frame_index_used s f)

-- The counters are right: they add up to the frames tracked, and count the frames not in use.
pub record IsCounted (s : Pmm) : Type 0 where
  pub tracked : s.total_frames ≤ max_frames
  pub sum : s.free_frames + s.used_frames ≡ s.total_frames
  pub free : s.free_frames ≡ count (unused s) s.total_frames

abbrev clear_bits : Words → ℕ → Bool
clear_bits bm g = not (test bm g)

count-mark :
    (bm : Words) (f n : ℕ)
    → f < n
    → test bm f ≡ false
    → count (clear_bits bm) n ≡ suc (count (clear_bits (mark bm f)) n)
count-mark bm f n h e =
    count_grows (clear_bits (mark bm f)) (clear_bits bm) f (λ g. ground (arith, test-mark bm f g)) n
      h (ground (arith, test-mark bm f f))

count-unmark :
    (bm : Words) (f n : ℕ)
    → f < n
    → test bm f ≡ true
    → count (clear_bits (unmark bm f)) n ≡ suc (count (clear_bits bm) n)
count-unmark bm f n h e =
    count_grows (clear_bits bm) (clear_bits (unmark bm f)) f
      (λ g. ground (arith, test-unmark bm f g)) n h (ground arith)

module _ (s : Pmm) (f : ℕ) where
  pub used-mark_used :
      (g : ℕ)
      → is_frame_index_used (mark_frame_used s f) g
        ≡ (if f == g && is_valid_frame_index s f then true else is_frame_index_used s g)
  unfolding mark_frame_used
  used-mark_used g = ground (arith, test-mark s.bitmap f g)

  pub used-mark_free :
      (g : ℕ)
      → is_frame_index_used (mark_frame_free s f) g
        ≡ (if f == g && is_valid_frame_index s f then false else is_frame_index_used s g)
  unfolding mark_frame_free
  used-mark_free g = ground (arith, test-unmark s.bitmap f g)

  pub mark_frame_used-IsCounted : IsCounted s → IsCounted (mark_frame_used s f)
  unfolding mark_frame_used
  mark_frame_used-IsCounted c =
      ground
        (arith, count-mark s.bitmap f s.total_frames, count-le (clear_bits s.bitmap) s.total_frames)

  pub mark_frame_free-IsCounted : IsCounted s → IsCounted (mark_frame_free s f)
  unfolding mark_frame_free
  mark_frame_free-IsCounted c = ground (
    arith,
    count-unmark s.bitmap f s.total_frames,
    count-le (clear_bits (unmark s.bitmap f)) s.total_frames,
  )

  -- The record of frames handed out does not enter the counters.
  pub mark_frame_allocated-IsCounted : IsCounted s → IsCounted (mark_frame_allocated s f)
  unfolding mark_frame_allocated is_frame_index_used
  mark_frame_allocated-IsCounted c = elim (Bool-cases (is_valid_frame_index s f)) [
    | inl e ↦ rw e (record { tracked = c.tracked; sum = c.sum; free = c.free })
    | inr e ↦ rw e c
  ]

  pub mark_frame_unallocated-IsCounted : IsCounted s → IsCounted (mark_frame_unallocated s f)
  unfolding mark_frame_unallocated is_frame_index_used
  mark_frame_unallocated-IsCounted c = elim (Bool-cases (is_valid_frame_index s f)) [
    | inl e ↦ rw e (record { tracked = c.tracked; sum = c.sum; free = c.free })
    | inr e ↦ rw e c
  ]
