-- ===== src/Pmm/Align.antt =====
-- Rounding of 64-bit addresses to frames (src/mm/pmm.c).
use native.Mathlib.Nat.{mod-eq_of_lt}
use wig_osx.Base.Bits.{bit_and-ones, bit_and-high}
use wig_osx.Base.{
  ◌^◌, ap, ◌∙◌, leb, ℕ, ◌+◌, ◌-◌, ◌*◌, ◌/◌, ◌≤◌, ◌<◌, ◌≡◌, arith, ltb, ◌==◌, if◌then◌else◌, bit_and,
  uint64_max, add64,
}

-- `PMM_FRAME_SIZE` and `PMM_FRAME_SIZE_U64`.
abbrev pub frame_size : ℕ
frame_size = 4096

-- `~(PMM_FRAME_SIZE_U64 - 1)` in 64 bits.
abbrev frame_mask : ℕ
frame_mask = uint64_max - (frame_size - 1)

unfoldable pub align_down : ℕ → ℕ
align_down value = bit_and value frame_mask

unfoldable pub align_up : ℕ → ℕ
align_up value =
    let mask = frame_size - 1 in
    if bit_and value mask == 0
    then value
    else if ltb (uint64_max - mask) value
    then bit_and uint64_max frame_mask
    else bit_and (add64 value mask) frame_mask

unfoldable pub range_end : ℕ → ℕ → ℕ
range_end base_address length =
    if ltb (uint64_max - length) base_address then uint64_max else add64 base_address length

-- `& ~0xFFF` rounds down to a multiple of the frame size.
pub align_down_lem : (v : ℕ) → v ≤ uint64_max → align_down v ≡ v / 4096 * 4096
unfolding align_down
align_down_lem v h =
    bit_and-high 12 (2 ^ 52 - 1) v
    ∙ ap (λ (t : ℕ). t * 4096) (bit_and-ones 52 (v / 4096) ∙ mod-eq_of_lt (omega arith))

-- Rounding up gives the next multiple, or the last one in 64 bits where there is none.
pub align_up_lem :
    (v : ℕ)
    → v ≤ uint64_max
    → align_up v
      ≡ (if ltb (uint64_max - 4095) v then uint64_max - 4095 else (v + 4095) / 4096 * 4096)
unfolding align_up align_down
align_up_lem v h = ground (arith, bit_and-ones 12 v, align_down_lem (add64 v 4095) (omega arith))

-- A frame, by its number, against an address that was rounded. Frame `g` is [4096 * g, 4096 * g + 4096).
pub leb-align_up :
    (v g : ℕ) → v ≤ uint64_max → g < 1048576 → leb (align_up v / frame_size) g ≡ leb v (g * 4096)
leb-align_up v g h k = ground (arith, align_up_lem v h)

pub ltb-align_up :
    (v g : ℕ) → v ≤ uint64_max → g < 1048576 → ltb g (align_up v / frame_size) ≡ ltb (g * 4096) v
ltb-align_up v g h k = ground (arith, align_up_lem v h)

pub leb-align_down :
    (v g : ℕ) → v ≤ uint64_max → leb (align_down v / frame_size) g ≡ ltb v (g * 4096 + 4096)
leb-align_down v g h = ground (arith, align_down_lem v h)

pub ltb-align_down :
    (v g : ℕ) → v ≤ uint64_max → ltb g (align_down v / frame_size) ≡ leb (g * 4096 + 4096) v
ltb-align_down v g h = ground (arith, align_down_lem v h)

-- The end of a range saturates at the last address.
pub range_end_lem :
    (b n : ℕ)
    → b ≤ uint64_max
    → n ≤ uint64_max
    → range_end b n ≡ (if ltb uint64_max (b + n) then uint64_max else b + n)
unfolding range_end
range_end_lem b n h k = ground arith

pub range_end-le : (b n : ℕ) → range_end b n ≤ uint64_max
unfolding range_end
range_end-le b n = ground arith
