-- ===== src/Pmm/Free.antt =====
-- What `pmm_free_frame` does, and when.
use wig_osx.Base.{
  ℕ, suc, ◌/◌, ◌%◌, ◌<◌, ◌≡◌, refl, ◌⊎◌, inl, inr, Bool, true, false, ◌&&◌, arith, ltb, ◌==◌,
  if◌then◌else◌, Bool-cases, ap,
}
use wig_osx.Pmm.Bitmap.{test, test-unmark}
use wig_osx.Pmm.Align.{frame_size}
use wig_osx.Pmm.Frames.{IsCounted, mark_frame_unallocated-IsCounted, mark_frame_free-IsCounted}
use wig_osx.Pmm.Boot.{IsValid}
use wig_osx.Pmm.{
  Pmm, is_valid_frame_index, is_frame_index_used, is_frame_allocated, mark_frame_free,
  mark_frame_unallocated, free_frame,
}
use wig_osx.Pmm.Alloc.{used_pos}

-- `t` is `s` with frame `f`, which was handed out, free again.
pub record Returns (s : Pmm) (f : ℕ) (t : Pmm) : Type 0 where
  pub total : t.total_frames ≡ s.total_frames
  pub frames :
      (g : ℕ) → is_frame_index_used t g ≡ (if f == g then false else is_frame_index_used s g)
  pub owners : (g : ℕ) → is_frame_allocated t g ≡ (if f == g then false else is_frame_allocated s g)
  pub free : t.free_frames ≡ suc s.free_frames
  pub used : suc t.used_frames ≡ s.used_frames
  pub valid : IsValid t

module _ (s : Pmm) (v : IsValid s) (f : ℕ) (tracked : f < s.total_frames)
    (handed_out : is_frame_allocated s f ≡ true) where
  -- The state after frame `f` is given back, but for the cursor.
  returned : Pmm
  returned = mark_frame_free (mark_frame_unallocated s f) f

  frames-return :
      (g : ℕ) → is_frame_index_used returned g ≡ (if f == g then false else is_frame_index_used s g)
  unfolding returned mark_frame_unallocated mark_frame_free
  frames-return g =
      ground
        (arith, v.counted.tracked, test-unmark s.bitmap f g, ap (test s.bitmap) {x = f} {y = g})

  owners-return :
      (g : ℕ) → is_frame_allocated returned g ≡ (if f == g then false else is_frame_allocated s g)
  unfolding returned mark_frame_unallocated mark_frame_free is_frame_allocated
  owners-return g = ground (arith, v.counted.tracked, test-unmark s.allocated_bitmap f g)

  counters-return :
      (returned.total_frames ≡ s.total_frames)
      × (returned.free_frames ≡ suc s.free_frames)
      × (suc returned.used_frames ≡ s.used_frames)
      × (returned.next_search_frame ≡ s.next_search_frame)
      × (returned.initialized ≡ true)
  unfolding returned mark_frame_unallocated mark_frame_free
  counters-return =
      let used = v.owned f handed_out in
      ground (arith, v.counted.tracked, v.counted.sum, v.ready, used, used_pos s v f tracked used)

  IsCounted-return : IsCounted returned
  unfolding returned
  IsCounted-return =
      mark_frame_free-IsCounted (mark_frame_unallocated s f) f
        (mark_frame_unallocated-IsCounted s f v.counted)

  -- Moving the cursor back to the frame that was given back.
  lower_cursor : Pmm → Pmm
  lower_cursor t = if ltb f t.next_search_frame then record t { next_search_frame = f } else t

  return-Returns : Returns s f (lower_cursor returned)
  unfolding lower_cursor is_frame_index_used is_frame_allocated
  return-Returns =
      let (total, free, used, cursor, ready) = counters-return in
      let c = IsCounted-return in
      elim (Bool-cases (ltb f returned.next_search_frame)) [
        | inl e ↦ rw e (record {
          total = total;
          frames = frames-return;
          owners = owners-return;
          free = free;
          used = used;
          valid = record {
            counted = record { tracked = c.tracked; sum = c.sum; free = c.free };
            cursor = omega arith;
            ready = ready;
            owned = still_owned;
          };
        })
        | inr e ↦ rw e (record {
          total = total;
          frames = frames-return;
          owners = owners-return;
          free = free;
          used = used;
          valid = record {
            counted = c;
            cursor = omega (arith, v.cursor);
            ready = ready;
            owned = still_owned;
          };
        })
      ]
    where
      still_owned :
          (g : ℕ) → is_frame_allocated returned g ≡ true → is_frame_index_used returned g ≡ true
      still_owned g h = ground (arith, frames-return g, owners-return g, v.owned g)

-- The address of a frame that is handed out.
pub record IsLive (s : Pmm) (a : ℕ) : Type 0 where
  pub aligned : a % frame_size ≡ 0
  pub tracked : a / frame_size < s.total_frames
  pub handed_out : is_frame_allocated s (a / frame_size) ≡ true

free_frame_live :
    (s : Pmm) (a : ℕ) (v : IsValid s) (h : IsLive s a)
    → free_frame s a ≡ (
      true,
      lower_cursor s v
          (a / frame_size)
          h.tracked
          h.handed_out
          (returned s v (a / frame_size) h.tracked h.handed_out),
    )
unfolding free_frame lower_cursor returned is_valid_frame_index
free_frame_live s a v h = ground (arith, v.counted.tracked, v.ready)

-- The same as a test.
unfoldable pub live_test : Pmm → ℕ → Bool
live_test s a =
    a % frame_size == 0
    && (ltb (a / frame_size) s.total_frames && is_frame_allocated s (a / frame_size))

pub IsLive-dec : (s : Pmm) (a : ℕ) → IsLive s a ⊎ ¬ IsLive s a
unfolding live_test
IsLive-dec s a = elim (Bool-cases (live_test s a)) [
  | inl e ↦ inl (ground arith)
  | inr e ↦ inr (λ h. ground (arith, h.aligned, h.tracked, h.handed_out))
]

free_frame_refused : (s : Pmm) (a : ℕ) → ¬ IsLive s a → free_frame s a ≡ (false, s)
unfolding free_frame is_valid_frame_index live_test
free_frame_refused s a n = elim (Bool-cases (live_test s a)) [
  | inl e ↦ absurd (n (ground arith))
  | inr e ↦ ground arith
]

-- `pmm_free_frame` succeeds exactly on the aligned address of a tracked frame that is handed out. It then
-- makes that frame free and no longer handed out, and corrects the counters. On any other address it
-- returns false and changes nothing. So a frame is given back once only.
pub free_frame_lem :
    (s : Pmm) (a : ℕ)
    → IsValid s
    → (IsLive s a × ((free_frame s a).0 ≡ true) × Returns s (a / frame_size) (free_frame s a).1)
      ⊎ ((¬ IsLive s a) × ((free_frame s a).0 ≡ false) × ((free_frame s a).1 ≡ s))
free_frame_lem s a v = elim (IsLive-dec s a) [
  | inl h ↦
      rw (free_frame_live s a v h)
        (inl (h, refl, return-Returns s v (a / frame_size) h.tracked h.handed_out))
  | inr n ↦ rw (free_frame_refused s a n) (inr (n, refl, refl))
]
