-- ===== src/Pmm/SelfTest.antt =====
-- `pmm_run_basic_self_test`.
use wig_osx.Base.{
  ℕ, ◌/◌, ◌%◌, ◌≡◌, ◌∙◌, refl, inl, inr, true, false, some, arith, ltb, Option-cases, ap, add32,
  sub32,
}
use wig_osx.Pmm.Align.{frame_size}
use wig_osx.Pmm.Boot.{IsValid}
use wig_osx.Pmm.Alloc.{Takes, allocate_frame-Takes, allocate_frame-none_iff}
use wig_osx.Pmm.Free.{Returns, IsLive, free_frame_lem}
use wig_osx.Pmm.{
  Pmm, is_frame_index_used, is_frame_allocated, is_valid_frame_index, allocate_frame, free_frame,
  is_frame_used, run_basic_self_test, check_released,
}

module _ (s t : Pmm) (a : ℕ) (v : IsValid s) (k : Takes s (a / frame_size) t) where
  address_used : is_frame_used t a ≡ true
  unfolding is_frame_used is_valid_frame_index
  address_used = ground (arith, k.frames (a / frame_size), k.total, k.tracked, v.counted.tracked)

  is_live : a % frame_size ≡ 0 → IsLive t a
  is_live e = record {
    aligned = e;
    tracked = omega (arith, k.total, k.tracked);
    handed_out = ground (arith, k.owners (a / frame_size));
  }

  counters_checked :
      (t.free_frames ≡ sub32 s.free_frames 1) × (t.used_frames ≡ add32 s.used_frames 1)
  counters_checked = omega (arith, k.free, k.used, v.counted.sum, v.counted.tracked)

  passes :
      (u : Pmm)
      → allocate_frame s false ≡ some (a, t)
      → free_frame t a ≡ (true, u)
      → Returns t (a / frame_size) u
      → run_basic_self_test s ≡ (true, u)
  unfolding run_basic_self_test check_released
  passes u e f r = ground (arith, address_used, counters_checked, r.free, r.used, k.free, k.used)

-- On a valid state the self-test passes exactly when some frame is free. It leaves the state valid, with
-- the same frames tracked, in use and handed out and the same number free.
pub run_basic_self_test_lem :
    (s : Pmm)
    → IsValid s
    → ((run_basic_self_test s).0 ≡ ltb 0 s.free_frames)
      × IsValid (run_basic_self_test s).1
      × ((run_basic_self_test s).1.total_frames ≡ s.total_frames)
      × ((run_basic_self_test s).1.free_frames ≡ s.free_frames)
      × ((g : ℕ) → is_frame_index_used (run_basic_self_test s).1 g ≡ is_frame_index_used s g)
      × ((g : ℕ) → is_frame_allocated (run_basic_self_test s).1 g ≡ is_frame_allocated s g)
unfolding run_basic_self_test
run_basic_self_test_lem s v = elim (Option-cases (allocate_frame s false)) [
  | inl e ↦
      rw (e, run_basic_self_test)
        (ground (arith, (allocate_frame-none_iff s v).0 e), v, refl, refl, λ g. refl, λ g. refl)
  | inr ((a, t), e) ↦
      let (aligned, k) = allocate_frame-Takes s a t v e in
      elim (free_frame_lem t a k.valid) [
        | inl (l, done, r) ↦
            let u = (free_frame t a).1 in
            rw (passes s t a v k u e (ground arith) r) (
              ground (arith, k.free),
              r.valid,
              r.total ∙ k.total,
              omega (arith, r.free, k.free),
              λ g. ground (
                arith,
                r.frames g,
                k.frames g,
                k.was_free,
                ap (is_frame_index_used s) {x = a / frame_size} {y = g},
              ),
              λ g. ground (
                arith,
                r.owners g,
                k.owners g,
                v.owned (a / frame_size),
                k.was_free,
                ap (is_frame_allocated s) {x = a / frame_size} {y = g},
              ),
            )
        | inr (n, done, r) ↦ absurd (n (is_live s t a v k aligned))
      ]
]
