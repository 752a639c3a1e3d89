-- ===== src/Pmm/History.antt =====
-- The frame allocator over any sequence of calls, against the list of addresses that its clients hold.
use wig_osx.Base.{
  ℕ, suc, ◌+◌, ◌-◌, ◌/◌, ◌%◌, ◌≤◌, ◌<◌, ◌≡◌, refl, sym, subst, ◌≢◌, ◌⊎◌, inl, inr, Bool, true,
  false, ◌||◌, Option, none, some, List, [], ◌∷◌, arith, ◌==◌, ==_iff, if◌then◌else◌, Bool-cases,
  Option-cases, ap, ◌∙◌, length,
}
use wig_osx.Pmm.Align.{frame_size}
use wig_osx.Pmm.Boot.{IsValid}
use wig_osx.Pmm.Alloc.{Takes, allocate_frame-Takes}
use wig_osx.Pmm.Free.{Returns, live_test, IsLive, free_frame_lem}
use wig_osx.Pmm.{Pmm, is_frame_index_used, is_frame_allocated, allocate_frame, free_frame}

pub data Call : Type 0 where
  allocates : Call
  frees : ℕ → Call

abbrev remove : ℕ → List ℕ → List ℕ
remove a [] = []
remove a (x ∷ xs) = if x == a then xs else x ∷ remove a xs

-- How often an address stands in the list.
abbrev pub occurs : ℕ → List ℕ → ℕ
occurs a [] = 0
occurs a (x ∷ xs) = (if x == a then 1 else 0) + occurs a xs

took : Pmm → List ℕ → Option (ℕ × Pmm) → Pmm × List ℕ
took s live none = (s, live)
took s live (some (a, t)) = (t, a ∷ live)

gave_back : ℕ → List ℕ → Bool × Pmm → Pmm × List ℕ
gave_back a live (true, t) = (t, remove a live)
gave_back a live (false, t) = (t, live)

-- A call, with the addresses that clients hold before and after it.
pub step : Call → Pmm × List ℕ → Pmm × List ℕ
unfolding took gave_back
step allocates (s, live) = took s live (allocate_frame s false)
step (frees a) (s, live) = gave_back a live (free_frame s a)

unfoldable pub run : List Call → Pmm × List ℕ → Pmm × List ℕ
unfolding step
run [] p = p
run (c ∷ cs) p = run cs (step c p)

occurs-remove_self : (a : ℕ) (xs : List ℕ) → occurs a (remove a xs) ≡ occurs a xs - 1
occurs-remove_self a [] = refl
occurs-remove_self a (x ∷ xs) = ground (arith, occurs-remove_self a xs, occurs-pos a xs)
  where
    occurs-pos : (a : ℕ) (xs : List ℕ) → 0 ≤ occurs a xs
    occurs-pos a xs = omega arith

occurs-remove_ne : (a b : ℕ) (xs : List ℕ) → a ≢ b → occurs b (remove a xs) ≡ occurs b xs
occurs-remove_ne a b [] n = refl
occurs-remove_ne a b (x ∷ xs) n = ground (arith, occurs-remove_ne a b xs)

length-remove : (a : ℕ) (xs : List ℕ) → 0 < occurs a xs → suc (length (remove a xs)) ≡ length xs
length-remove a [] h = absurd (omega arith)
length-remove a (x ∷ xs) h = ground (arith, length-remove a xs)

-- `s` has been reached from `s₀`, where nothing was handed out, and clients hold `live`.
pub record Follows (start s : Pmm) (live : List ℕ) : Type 0 where
  pub valid : IsValid s
  pub total : s.total_frames ≡ start.total_frames
  pub split :
      (g : ℕ) → is_frame_index_used s g ≡ (is_frame_index_used start g || is_frame_allocated s g)
  pub apart : (g : ℕ) → is_frame_allocated s g ≡ true → is_frame_index_used start g ≡ false
  pub holds : (a : ℕ) → occurs a live ≡ (if live_test s a then 1 else 0)
  pub balance : s.free_frames + length live ≡ start.free_frames

module _ (start s : Pmm) (live : List ℕ) (w : Follows start s live) (a : ℕ) (t : Pmm)
    (aligned : a % frame_size ≡ 0) where
  Takes-apart :
      Takes s (a / frame_size) t
      → (g : ℕ) → is_frame_allocated t g ≡ true
      → is_frame_index_used start g ≡ false
  Takes-apart k g h = elim (Bool-cases (a / frame_size == g)) [
    | inl e ↦
        ground (
          arith,
          ap (is_frame_index_used s) ((==_iff _ _).0 e),
          k.was_free,
          w.split g,
          bool_cases g,
        )
    | inr e ↦ ground (arith, k.owners g, w.apart g)
  ]
    where
      bool_cases :
          (g : ℕ) → (is_frame_index_used start g ≡ true) ⊎ (is_frame_index_used start g ≡ false)
      bool_cases g = Bool-cases (is_frame_index_used start g)

  Takes-holds :
      Takes s (a / frame_size) t → (b : ℕ) → occurs b (a ∷ live) ≡ (if live_test t b then 1 else 0)
  unfolding live_test
  Takes-holds k b = ground (
    arith,
    k.owners (b / frame_size),
    w.holds b,
    k.total,
    k.tracked,
    w.valid.owned (a / frame_size),
    k.was_free,
    ap (is_frame_allocated s) {x = a / frame_size} {y = b / frame_size},
  )

  Takes-Follows : Takes s (a / frame_size) t → Follows start t (a ∷ live)
  Takes-Follows k = record {
    valid = k.valid;
    total = k.total ∙ w.total;
    split = λ g. ground (arith, k.frames g, k.owners g, w.split g);
    apart = Takes-apart k;
    holds = Takes-holds k;
    balance = omega (arith, k.free, w.balance);
  }

  Returns-split :
      IsLive s a
      → Returns s (a / frame_size) t
      → (g : ℕ) → is_frame_index_used t g ≡ (is_frame_index_used start g || is_frame_allocated t g)
  Returns-split l k g = elim (Bool-cases (a / frame_size == g)) [
    | inl e ↦ ground (
      arith,
      k.frames g,
      k.owners g,
      w.apart (a / frame_size),
      l.handed_out,
      ap (is_frame_index_used start) ((==_iff _ _).0 e),
    )
    | inr e ↦ ground (arith, k.frames g, k.owners g, w.split g)
  ]

  Returns-holds :
      IsLive s a
      → Returns s (a / frame_size) t
      → (b : ℕ) → occurs b (remove a live) ≡ (if live_test t b then 1 else 0)
  unfolding live_test
  Returns-holds l k b = elim (Bool-cases (a == b)) [
    | inl e ↦
        let same = (==_iff _ _).0 e in
        ground (
          arith,
          k.owners (a / frame_size),
          occurs-remove_self a live,
          w.holds a,
          k.total,
          l.aligned,
          l.tracked,
          l.handed_out,
          same,
          ap (λ (x : ℕ). occurs x (remove a live)) same,
          ap (is_frame_allocated t) {x = a / frame_size} {y = b / frame_size},
        )
    | inr e ↦
        ground (
          arith,
          k.owners (b / frame_size),
          w.holds b,
          k.total,
          l.aligned,
          occurs-remove_ne a b live,
        )
  ]

  Returns-Follows : IsLive s a → Returns s (a / frame_size) t → Follows start t (remove a live)
  unfolding live_test
  Returns-Follows l k = record {
    valid = k.valid;
    total = k.total ∙ w.total;
    split = Returns-split l k;
    apart = λ g h. ground (arith, k.owners g, w.apart g);
    holds = Returns-holds l k;
    balance = omega (
      arith,
      k.free,
      w.balance,
      length-remove a live (ground (arith, w.holds a, l.aligned, l.tracked, l.handed_out)),
    );
  }

step-Follows :
    (start s : Pmm) (live : List ℕ) (c : Call)
    → Follows start s live
    → Follows start (step c (s, live)).0 (step c (s, live)).1
unfolding step
step-Follows start s live allocates w = elim (Option-cases (allocate_frame s false)) [
  | inl e ↦ rw (e, took) w
  | inr ((a, t), e) ↦
      let (aligned, k) = allocate_frame-Takes s a t w.valid e in
      rw (e, took) (Takes-Follows start s live w a t aligned k)
]
step-Follows start s live (frees a) w = elim (free_frame_lem s a w.valid) [
  | inl (l, e, k) ↦ given_back (free_frame s a) l e k
  | inr (n, e, k) ↦ kept (free_frame s a) e k
]
  where
    given_back :
        (r : Bool × Pmm)
        → IsLive s a
        → r.0 ≡ true
        → Returns s (a / frame_size) r.1
        → Follows start (gave_back a live r).0 (gave_back a live r).1
    given_back (true, t) l e k = Returns-Follows start s live w a t l.aligned l k
    given_back (false, t) l e k = cc

    kept :
        (r : Bool × Pmm)
        → r.0 ≡ false
        → r.1 ≡ s
        → Follows start (gave_back a live r).0 (gave_back a live r).1
    kept (true, t) e k = cc
    kept (false, t) e k = subst (λ x. Follows start x live) (sym k) w

start-Follows : (s : Pmm) → IsValid s → ((g : ℕ) → is_frame_allocated s g ≡ false) → Follows s s []
unfolding live_test
start-Follows s v fresh = record {
  valid = v;
  total = refl;
  split = λ g. ground (arith, fresh g);
  apart = λ g h. cc (fresh g);
  holds = λ a. ground (arith, fresh (a / frame_size));
  balance = omega arith;
}

-- From a valid state in which nothing is handed out, after any sequence of calls: the state is valid;
-- a frame is in use exactly if it was so at the start or is handed out, and never both; the clients hold
-- the address of each frame handed out once, and no other address; the frames free and the
-- addresses held make up the frames free at the start.
pub run-Follows :
    (start : Pmm) (calls : List Call)
    → IsValid start
    → ((g : ℕ) → is_frame_allocated start g ≡ false)
    → Follows start (run calls (start, [])).0 (run calls (start, [])).1
unfolding run
run-Follows start calls v fresh = go calls start [] (start-Follows start v fresh)
  where
    go :
        (cs : List Call) (s : Pmm) (live : List ℕ)
        → Follows start s live
        → Follows start (run cs (s, live)).0 (run cs (s, live)).1
    go [] s live w = w
    go (c ∷ cs) s live w = go cs _ _ (step-Follows start s live c w)
