-- ===== src/Pmm/Alloc.antt =====
-- What `pmm_allocate_frame` does, and when.
use wig_osx.Base.{
  ℕ, suc, ◌*◌, ◌/◌, ◌%◌, ◌<◌, ◌≡◌, ◌↔◌, inl, inr, true, false, none, some, arith, ◌==◌,
  if◌then◌else◌, ap,
}
use wig_osx.Pmm.Bitmap.{test, test-mark}
use wig_osx.Pmm.Align.{frame_size}
use wig_osx.Pmm.Frames.{
  IsCounted, unused, count-zero, count-pos, count-lt, mark_frame_allocated-IsCounted,
  mark_frame_used-IsCounted,
}
use wig_osx.Pmm.Boot.{IsValid}
use wig_osx.Pmm.Search.{allocate_cases}
use wig_osx.Pmm.{
  Pmm, is_frame_index_used, is_frame_allocated, mark_frame_used, mark_frame_allocated, take_frame,
  allocate_frame,
}

-- `t` is `s` with frame `f`, which was free, handed out.
pub record Takes (s : Pmm) (f : ℕ) (t : Pmm) : Type 0 where
  pub tracked : f < s.total_frames
  pub was_free : is_frame_index_used s f ≡ false
  pub total : t.total_frames ≡ s.total_frames
  pub frames :
      (g : ℕ) → is_frame_index_used t g ≡ (if f == g then true else is_frame_index_used s g)
  pub owners : (g : ℕ) → is_frame_allocated t g ≡ (if f == g then true else is_frame_allocated s g)
  pub free : suc t.free_frames ≡ s.free_frames
  pub used : t.used_frames ≡ suc s.used_frames
  pub valid : IsValid t

module _ (s : Pmm) (v : IsValid s) (f : ℕ) (tracked : f < s.total_frames) where
  free_pos : is_frame_index_used s f ≡ false → 0 < s.free_frames
  free_pos e =
      omega
        (arith, v.counted.free, count-pos (unused s) s.total_frames f tracked (ground (arith, e)))

  pub used_pos : is_frame_index_used s f ≡ true → s.free_frames < s.total_frames
  used_pos e =
      omega
        (arith, v.counted.free, count-lt (unused s) s.total_frames f tracked (ground (arith, e)))

  frames-take :
      (g : ℕ)
      → is_frame_index_used (take_frame s f).1 g
        ≡ (if f == g then true else is_frame_index_used s g)
  unfolding take_frame mark_frame_allocated mark_frame_used
  frames-take g = ground (arith, v.counted.tracked, test-mark s.bitmap f g, same g)
    where
      same : (g : ℕ) → f ≡ g → test s.bitmap f ≡ test s.bitmap g
      same g e = ap (test s.bitmap) e

  owners-take :
      (g : ℕ)
      → is_frame_allocated (take_frame s f).1 g ≡ (if f == g then true else is_frame_allocated s g)
  unfolding take_frame mark_frame_allocated mark_frame_used is_frame_allocated
  owners-take g = ground (arith, v.counted.tracked, test-mark s.allocated_bitmap f g)

  counters-take :
      is_frame_index_used s f ≡ false
      → ((take_frame s f).1.total_frames ≡ s.total_frames)
        × (suc (take_frame s f).1.free_frames ≡ s.free_frames)
        × ((take_frame s f).1.used_frames ≡ suc s.used_frames)
        × ((take_frame s f).1.next_search_frame ≡ suc f)
        × ((take_frame s f).1.initialized ≡ true)
  unfolding take_frame mark_frame_allocated mark_frame_used
  counters-take e = ground (arith, v.counted.tracked, v.counted.sum, v.ready, free_pos e)

  IsCounted-take : IsCounted (take_frame s f).1
  unfolding take_frame is_frame_index_used
  IsCounted-take =
      let c =
        mark_frame_allocated-IsCounted (mark_frame_used s f) f
          (mark_frame_used-IsCounted s f v.counted) in
      record { tracked = c.tracked; sum = c.sum; free = c.free }

  take_frame-Takes : is_frame_index_used s f ≡ false → Takes s f (take_frame s f).1
  take_frame-Takes e =
      let (total, free, used, cursor, ready) = counters-take e in
      record {
        tracked = tracked;
        was_free = e;
        total = total;
        frames = frames-take;
        owners = owners-take;
        free = free;
        used = used;
        valid = record {
          counted = IsCounted-take;
          cursor = omega arith;
          ready = ready;
          owned = λ g h. ground (arith, frames-take g, owners-take g, v.owned g);
        };
      }

-- A successful `pmm_allocate_frame` returns the aligned address of a tracked frame that was not in use.
-- After it that frame alone is marked used and handed out, one frame fewer is free and one more used,
-- and the state is valid again.
pub allocate_frame-Takes :
    (s : Pmm) (a : ℕ) (t : Pmm)
    → IsValid s
    → allocate_frame s false ≡ some (a, t)
    → (a % frame_size ≡ 0) × Takes s (a / frame_size) t
unfolding take_frame
allocate_frame-Takes s a t v e = elim (allocate_cases s v) [
  | inl (r, all) ↦ cc
  | inr (f, lt, un, r) ↦
      let address : f * frame_size % 4294967296 ≡ a = ground arith in
      let state : (take_frame s f).1 ≡ t = ground arith in
      let number : a / frame_size ≡ f = omega (arith, v.counted.tracked) in
      (omega (arith, v.counted.tracked), rw (number, ← state) (take_frame-Takes s v f lt un))
]

-- `pmm_allocate_frame` fails on a valid state exactly when no frame is free.
pub allocate_frame-none_iff :
    (s : Pmm) → IsValid s → (allocate_frame s false ≡ none) ↔ (s.free_frames ≡ 0)
allocate_frame-none_iff s v = elim (allocate_cases s v) [
  | inl (r, all) ↦ (
    λ e. omega (
      arith,
      v.counted.free,
      count-zero (unused s) s.total_frames (λ i h. ground (arith, all i h)),
    ),
    λ e. r,
  )
  | inr (f, lt, un, r) ↦ (λ e. cc, λ e. absurd (omega (arith, free_pos s v f lt un)))
]
