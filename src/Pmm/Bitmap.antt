-- ===== src/Pmm/Bitmap.antt =====
-- A frame bitmap: one bit for each physical frame, 32 frames to a word (src/mm/pmm.c).
use wig_osx.Base.{
  ℕ, ◌-◌, ◌*◌, ◌/◌, ◌%◌, ◌^◌, ◌≤◌, ◌≡◌, Bool, true, false, not, arith, ◌==◌, if◌then◌else◌, bit_and,
  bit_or, uint32_max, update,
}
use wig_osx.Base.Bits.{
  bit, bit-le-one, bit-bit_and, bit-bit_or, bit-pow, bit-ones, zero-bit, bit-complement,
  bit_and-pow,
}
use native.Mathlib.Nat.{one-le-pow}

-- The words of `pmm_bitmap` or `pmm_allocated_bitmap`, by their index.
abbrev pub Words : Type 0
Words = ℕ → ℕ

pub bitmap_word_index : ℕ → ℕ
bitmap_word_index frame_index = frame_index / 32

pub bitmap_bit_mask : ℕ → ℕ
bitmap_bit_mask frame_index = 2 ^ (frame_index % 32)

-- `(bitmap[word_index] & bit_mask) != 0`.
unfoldable pub test : Words → ℕ → Bool
unfolding bitmap_word_index bitmap_bit_mask
test bitmap frame_index =
    not (bit_and (bitmap (bitmap_word_index frame_index)) (bitmap_bit_mask frame_index) == 0)

-- `bitmap[word_index] |= bit_mask`.
unfoldable pub mark : Words → ℕ → Words
unfolding bitmap_word_index bitmap_bit_mask
mark bitmap frame_index =
    update bitmap (bitmap_word_index frame_index)
      (bit_or (bitmap (bitmap_word_index frame_index)) (bitmap_bit_mask frame_index))

-- `bitmap[word_index] &= ~bit_mask`.
unfoldable pub unmark : Words → ℕ → Words
unfolding bitmap_word_index bitmap_bit_mask
unmark bitmap frame_index =
    update bitmap (bitmap_word_index frame_index)
      (bit_and (bitmap (bitmap_word_index frame_index)) (uint32_max - bitmap_bit_mask frame_index))

mul-pow-ne-zero : (b k : ℕ) → b ≤ 1 → (not (b * 2 ^ k == 0)) ≡ (b == 1)
mul-pow-ne-zero b k h = grind (arith, one-le-pow k 2)

-- The test reads one bit of one word.
test_lem : (bm : Words) (f : ℕ) → test bm f ≡ (bit (bm (f / 32)) (f % 32) == 1)
unfolding test
test_lem bm f =
    rw (bit_and-pow (f % 32) (bm (f / 32)))
      (mul-pow-ne-zero _ (f % 32) (bit-le-one (bm (f / 32)) (f % 32)))

pub test-mark : (bm : Words) (f g : ℕ) → test (mark bm f) g ≡ (if f == g then true else test bm g)
unfolding mark
test-mark bm f g = ground (
  arith,
  test_lem (mark bm f) g,
  test_lem bm g,
  bit-bit_or (g % 32) (bm (f / 32)) (2 ^ (f % 32)),
  bit-pow (f % 32) (g % 32),
  bit-le-one (bm (g / 32)) (g % 32),
)

pub test-unmark :
    (bm : Words) (f g : ℕ) → test (unmark bm f) g ≡ (if f == g then false else test bm g)
unfolding unmark
test-unmark bm f g = ground (
  arith,
  test_lem (unmark bm f) g,
  test_lem bm g,
  bit-bit_and (g % 32) (bm (f / 32)) (uint32_max - 2 ^ (f % 32)),
  bit-complement 32 (f % 32) (g % 32) (omega arith) (omega arith),
  bit-le-one (bm (g / 32)) (g % 32),
)

-- The words that `pmm_reset_bitmap` writes.
pub test-ones : (f : ℕ) → test (λ _. 0xFFFFFFFF) f ≡ true
test-ones f = ground (arith, test_lem (λ _. 0xFFFFFFFF) f, bit-ones 32 (f % 32))

pub test-zeros : (f : ℕ) → test (λ _. 0) f ≡ false
test-zeros f = ground (arith, test_lem (λ _. 0) f, zero-bit (f % 32))
