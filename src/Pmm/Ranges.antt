-- ===== src/Pmm/Ranges.antt =====
-- What marking a range of addresses does, in terms of the frames [4096 * g, 4096 * g + 4096).
use wig_osx.Base.{
  ℕ, zero, suc, ◌+◌, ◌-◌, ◌*◌, ◌%◌, ◌≤◌, ◌<◌, ◌≡◌, refl, ◌∙◌, ap, inl, inr, Bool, true, false, ◌&&◌,
  ◌||◌, arith, ltb, leb, ◌==◌, if◌then◌else◌, Bool-cases, uint64_max,
}
use wig_osx.Base.Loops.{for_range}
use wig_osx.Pmm.Align.{
  range_end, range_end-le, leb-align_up, ltb-align_up, leb-align_down, ltb-align_down,
}
use wig_osx.Pmm.Frames.{
  IsCounted, used-mark_used, used-mark_free, mark_frame_used-IsCounted, mark_frame_free-IsCounted,
}
use wig_osx.Pmm.{
  Pmm, is_valid_frame_index, is_frame_index_used, mark_frame_used, mark_frame_free, for_frames,
  mark_range_used, mark_range_free,
}

-- What marking leaves alone.
pub record Kept (s t : Pmm) : Type 0 where
  pub total_frames : t.total_frames ≡ s.total_frames
  pub allocated_bitmap : t.allocated_bitmap ≡ s.allocated_bitmap
  pub next_search_frame : t.next_search_frame ≡ s.next_search_frame
  pub initialized : t.initialized ≡ s.initialized

pub Kept-refl : (s : Pmm) → Kept s s
Kept-refl s = record {
  total_frames = refl;
  allocated_bitmap = refl;
  next_search_frame = refl;
  initialized = refl;
}

pub Kept-trans : {s t u : Pmm} → Kept s t → Kept t u → Kept s u
Kept-trans k l = record {
  total_frames = l.total_frames ∙ k.total_frames;
  allocated_bitmap = l.allocated_bitmap ∙ k.allocated_bitmap;
  next_search_frame = l.next_search_frame ∙ k.next_search_frame;
  initialized = l.initialized ∙ k.initialized;
}

-- `t` is `s` with the frames that a test picks set to `v`.
pub record Marked (v : Bool) (picks : ℕ → Bool) (s t : Pmm) : Type 0 where
  pub kept : Kept s t
  pub counted : IsCounted t
  pub frames :
      (g : ℕ)
      → g < s.total_frames
      → is_frame_index_used t g ≡ (if picks g then v else is_frame_index_used s g)

pub Marked-picks :
    (v : Bool) (p q : ℕ → Bool) {s t : Pmm}
    → ((g : ℕ) → g < s.total_frames → p g ≡ q g)
    → Marked v p s t
    → Marked v q s t
Marked-picks v p q {s = s} same m = record {
  kept = m.kept;
  counted = m.counted;
  frames = λ g h. m.frames g h ∙ ap (λ b. if b then v else is_frame_index_used s g) (same g h);
}

-- Marking the same way twice picks what either picks.
pub Marked-seq :
    (v : Bool) (p q : ℕ → Bool) {s t u : Pmm}
    → Marked v p s t
    → Marked v q t u
    → Marked v (λ g. q g || p g) s u
Marked-seq v p q m n = record {
  kept = Kept-trans m.kept n.kept;
  counted = n.counted;
  frames = λ g h. ground (arith, m.frames g h, n.frames g (omega (arith, m.kept.total_frames)));
}

pub Marked-none : (v : Bool) (s : Pmm) → IsCounted s → Marked v (λ _. false) s s
Marked-none v s c = record { kept = Kept-refl s; counted = c; frames = λ g h. refl }

-- A branch on a test picks what the branch taken picks.
pub Marked-if :
    (v : Bool) (b : Bool) (p q : ℕ → Bool) {s t u : Pmm}
    → (b ≡ true → Marked v p s t)
    → (b ≡ false → Marked v q s u)
    → Marked v (λ g. if b then p g else q g) s (if b then t else u)
Marked-if v true p q m n = m refl
Marked-if v false p q m n = n refl

-- The loop, for either way of marking.
module _ (body : Pmm → ℕ → Pmm) (v : Bool) (body-Kept : (s : Pmm) (f : ℕ) → Kept s (body s f))
    (body-IsCounted : (s : Pmm) (f : ℕ) → IsCounted s → IsCounted (body s f))
    (used-body : (s : Pmm) (f g : ℕ)
      → is_frame_index_used (body s f) g
        ≡ (if f == g && is_valid_frame_index s f then v else is_frame_index_used s g)) where
  loop : ℕ → ℕ → Pmm → Pmm
  loop n i s = for_range n i (λ frame t. body t (frame % 4294967296)) s

  loop-Marked :
      (n i : ℕ) (s : Pmm)
      → IsCounted s
      → i + n ≤ s.total_frames
      → Marked v (λ g. leb i g && ltb g (i + n)) s (loop n i s)
  unfolding loop for_range is_valid_frame_index
  loop-Marked zero i s c h = record {
    kept = Kept-refl s;
    counted = c;
    frames = λ g q. ground arith;
  }
  loop-Marked (suc n) i s c h =
      let next = body s (i % 4294967296) in
      let k = body-Kept s (i % 4294967296) in
      let rest =
        loop-Marked n (suc i) next (body-IsCounted s (i % 4294967296) c)
          (omega (arith, k.total_frames)) in
      record {
        kept = Kept-trans k rest.kept;
        counted = rest.counted;
        frames = λ g q. ground (
          arith,
          rest.frames g (omega (arith, k.total_frames)),
          used-body s (i % 4294967296) g,
          c.tracked,
        );
      }

  for_frames-Marked :
      (first last : ℕ) (s : Pmm)
      → IsCounted s
      → Marked v (λ g. leb first g && ltb g last) s (for_frames body first last s)
  unfolding for_frames loop
  for_frames-Marked first last s c = elim (Bool-cases (leb s.total_frames first)) [
    | inl e ↦ rw e (record { kept = Kept-refl s; counted = c; frames = λ g q. ground arith })
    | inr e ↦ rw e (
        Marked-picks v _ _ (λ g q. ground arith)
          (loop-Marked (stop - first) first s c (ground arith)))
  ]
    where
      stop : ℕ
      stop = if ltb s.total_frames last then s.total_frames else last

pub mark_frame_used-Kept : (s : Pmm) (f : ℕ) → Kept s (mark_frame_used s f)
unfolding mark_frame_used
mark_frame_used-Kept s f = ground arith

pub mark_frame_free-Kept : (s : Pmm) (f : ℕ) → Kept s (mark_frame_free s f)
unfolding mark_frame_free
mark_frame_free-Kept s f = ground arith

-- Frame `g` meets the bytes [base, end), or its first byte or last byte lies at an end inside the frame.
abbrev pub overlaps : ℕ → ℕ → ℕ → Bool
overlaps base end g = ltb base (g * 4096 + 4096) && ltb (g * 4096) end

-- All bytes of frame `g` lie in [base, end).
abbrev pub inside : ℕ → ℕ → ℕ → Bool
inside base end g = leb base (g * 4096) && leb (g * 4096 + 4096) end

module _ (base length : ℕ) (s : Pmm) (c : IsCounted s) (wide : base ≤ uint64_max) where
  -- Reserving a range takes exactly the frames that it touches.
  pub mark_range_used-Marked :
      Marked true (overlaps base (range_end base length)) s (mark_range_used s base length)
  unfolding mark_range_used
  mark_range_used-Marked =
      Marked-picks true _ _
        (λ g q. ground (
          arith,
          c.tracked,
          leb-align_down base g wide,
          ltb-align_up (range_end base length) g (range_end-le base length),
        ))
        (for_frames-Marked mark_frame_used true mark_frame_used-Kept mark_frame_used-IsCounted
          used-mark_used _ _ s c)

  -- Releasing a range frees exactly the frames that lie in it whole.
  pub mark_range_free-Marked :
      Marked false (inside base (range_end base length)) s (mark_range_free s base length)
  unfolding mark_range_free
  mark_range_free-Marked =
      Marked-picks false _ _
        (λ g q. ground (
          arith,
          c.tracked,
          leb-align_up base g wide,
          ltb-align_down (range_end base length) g (range_end-le base length),
        ))
        (for_frames-Marked mark_frame_free false mark_frame_free-Kept mark_frame_free-IsCounted
          used-mark_free _ _ s c)
