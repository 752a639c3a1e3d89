-- ===== src/Input/Refine.antt =====
-- The ring with wrapping indices behaves as the queue of the characters that it holds.
use wig_osx.Base.{
  pick_then, pick_else, none, some, ◌⊎◌, ℕ, zero, suc, ◌+◌, ◌-◌, ◌%◌, ◌≤◌, ◌<◌, ◌≡◌, refl, ◌≢◌, ap,
  ◌∙◌, inl, inr, Bool, false, List, [], ◌∷◌, ◌++◌, arith, leb, ◌==◌, Bool-cases, bit_and,
  uint32_max, add32, sub32, update, length,
}
use wig_osx.Base.Bits.{bit_and-ones}
use wig_osx.Input.Queue.{Op, put, get, Reply, read, accepted}
use wig_osx.Input.Queue
use wig_osx.Input.{
  Input, queue_index_mask, initialize, enqueue_character, try_read_character, step, run, taken,
  get_pending_character_count,
}

-- Indices are 32-bit numbers, and at most 64 characters are pending.
pub record IsValid (s : Input) : Type 0 where
  pub head : s.head < 4294967296
  pub tail : s.tail < 4294967296
  pub fits : sub32 s.head s.tail ≤ 64
  pub dropped : s.dropped_character_count ≤ uint32_max

-- The `n` characters from the running index `t` on.
abbrev pub window : (ℕ → ℕ) → ℕ → ℕ → List ℕ
window q t zero = []
window q t (suc n) = q (t % 64) ∷ window q (add32 t 1) n

abbrev pub contents : Input → List ℕ
contents s = window s.queue s.tail (sub32 s.head s.tail)

abbrev pub view : Input → Queue.Queue
view s = record { items = contents s; dropped = s.dropped_character_count }

length-window : (q : ℕ → ℕ) (n t : ℕ) → length (window q t n) ≡ n
length-window q zero t = refl
length-window q (suc n) t = ap suc (length-window q n (add32 t 1))

-- Writing just behind a window of fewer than 64 characters extends it by what is written.
window-update :
    (q : ℕ → ℕ) (c i n t : ℕ)
    → n < 64
    → t < 4294967296
    → i ≡ (t + n) % 64
    → window (update q i c) t (suc n) ≡ window q t n ++ c ∷ []
window-update q c i zero t h k e = ground arith
window-update q c i (suc n) t h k e =
    ground (arith, window-update q c i n (add32 t 1) (omega arith) (omega arith) (omega arith))

mask_lem : (t : ℕ) → bit_and t queue_index_mask ≡ t % 64
mask_lem t = bit_and-ones 6 t

window_of_ne_zero :
    (q : ℕ → ℕ) (t n : ℕ) → n ≢ 0 → window q t n ≡ q (t % 64) ∷ window q (add32 t 1) (n - 1)
window_of_ne_zero q t zero h = absurd (h refl)
window_of_ne_zero q t (suc n) h = ap (λ k. window q t (suc k)) (omega arith)

module _ (s : Input) (v : IsValid s) where
  -- The number of pending characters is the length of the queue that the ring stands for.
  pub length-contents : length (contents s) ≡ get_pending_character_count s
  unfolding get_pending_character_count
  length-contents = length-window s.queue (sub32 s.head s.tail) s.tail

  contents-append :
      (c : ℕ)
      → sub32 s.head s.tail < 64
      → window
          (update s.queue (bit_and s.head queue_index_mask) c)
          s.tail
          (sub32 (add32 s.head 1) s.tail)
        ≡ contents s ++ c ∷ []
  contents-append c room =
      let n = sub32 s.head s.tail in
      ap (window (update s.queue (bit_and s.head queue_index_mask) c) s.tail)
        {y = suc (sub32 s.head s.tail)} (omega (arith, v.head, v.tail))
      ∙ window-update s.queue c (bit_and s.head queue_index_mask) n s.tail room v.tail
          (mask_lem s.head ∙ omega (arith, v.head, v.tail))

  contents-rest :
      s.tail ≢ s.head
      → contents s
        ≡ s.queue (bit_and s.tail queue_index_mask)
          ∷ window s.queue (add32 s.tail 1) (sub32 s.head (add32 s.tail 1))
  contents-rest ne = ground (
    arith,
    window_of_ne_zero s.queue s.tail (sub32 s.head s.tail) (omega (arith, v.head, v.tail)),
    mask_lem s.tail,
    v.head,
    v.tail,
  )

  pub enqueue-view :
      (c : ℕ) → ((enqueue_character s c).0, view (enqueue_character s c).1) ≡ Queue.push (view s) c
  unfolding enqueue_character Queue.push
  enqueue-view c = elim (Bool-cases (leb 64 (sub32 s.head s.tail))) [
    | inl full ↦ ground (arith, length-window s.queue (sub32 s.head s.tail) s.tail, v.dropped)
    | inr room ↦ ground (
      arith,
      length-window s.queue (sub32 s.head s.tail) s.tail,
      contents-append c (ground arith),
    )
  ]

  pub enqueue-IsValid : (c : ℕ) → IsValid (enqueue_character s c).1
  unfolding enqueue_character
  enqueue-IsValid c = ground arith

  contents-nil : s.tail ≡ s.head → contents s ≡ []
  contents-nil e = ap (window s.queue s.tail) {y = 0} (omega (arith, v.head))

  step-view : (o : Op) → ((step o s).0, view (step o s).1) ≡ Queue.step o (view s)
  unfolding step Queue.step
  step-view (put c) = ap (λ (r : Bool × Queue.Queue). (accepted r.0, r.1)) (enqueue-view c)
  step-view get =
      unfold taken try_read_character Queue.pop in
      elim (Bool-cases (s.tail == s.head)) [
        | inl e ↦ ground (arith, contents-nil)
        | inr e ↦ ground (arith, contents-rest)
      ]

  -- What a removal meets: an empty queue, or its first character.
  pub try_read-view :
      ((try_read_character s false ≡ none) × (contents s ≡ []))
      ⊎ ((c : ℕ) × (t : Input) × (try_read_character s false ≡ some (c, t))
          × (contents s ≡ c ∷ contents t)
          × (t.dropped_character_count ≡ s.dropped_character_count)
          × IsValid t)
  unfolding try_read_character
  try_read-view = elim (Bool-cases (s.tail == s.head)) [
    | inl e ↦ inl (pick_then (s.tail == s.head) _ _ e, contents-nil (ground (arith, e)))
    | inr e ↦ inr (
      s.queue (bit_and s.tail queue_index_mask),
      record s { tail = add32 s.tail 1 },
      pick_else (s.tail == s.head) _ _ e,
      contents-rest (ground (arith, e)),
      refl,
      record {
        head = v.head;
        tail = omega arith;
        fits = ground (arith, e, v.head, v.tail, v.fits);
        dropped = v.dropped;
      },
    )
  ]

  read-IsValid : IsValid (taken s (try_read_character s false)).1
  unfolding taken try_read_character
  read-IsValid = ground arith

  step-IsValid : (o : Op) → IsValid (step o s).1
  unfolding step
  step-IsValid (put c) = enqueue-IsValid c
  step-IsValid get = read-IsValid

-- From any valid ring, a sequence of insertions and removals, in any order, gives the answers of the
-- queue of the ring's characters: first in, first out, at most 64 pending, a refused character counted,
-- with a count that stops at UINT32_MAX. The ring at the end is valid and stands for that queue's end.
pub run-refines :
    (os : List Op) (s : Input)
    → IsValid s
    → (((run os s).0, view (run os s).1) ≡ Queue.run os (view s)) × IsValid (run os s).1
unfolding run Queue.run
run-refines [] s v = (refl, v)
run-refines (o ∷ os) s v =
    let (e, w) = run-refines os (step o s).1 (step-IsValid s v o) in
    (ground (arith, step-view s v o, e), w)

-- `input_initialize` empties the queue and its count, whatever was there.
pub initialize-view :
    (s : Input)
    → (view (initialize s) ≡ record { items = []; dropped = 0 }) × IsValid (initialize s)
unfolding initialize
initialize-view s = (refl, omega arith)
