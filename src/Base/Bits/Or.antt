-- ===== src/Base/Bits/Or.antt =====
-- `|` of a number and the two lowest bits.
use wig_osx.Base.Bits.Step.{bit_or_step}
use Prim.Native.Nat.{ℕ, zero, suc, ◌+◌, ◌*◌, ◌/◌, ◌≤◌, bit_or}
use mathlib.Core.Path.{◌≡◌, refl, ◌∙◌, ap}
use native.Mathlib.Omega.{arith}

or_zero : (n z : ℕ) → z ≤ n → bit_or z 0 ≡ z
or_zero zero zero h = refl
or_zero zero (suc z) h = absurd (omega arith)
or_zero (suc n) zero h = refl
or_zero (suc n) (suc z) h =
    omega (arith, bit_or_step (suc z) 0, or_zero n (suc z / 2) (omega arith))

pub bit_or-flags : (a : ℕ) → bit_or (a * 4) 3 ≡ a * 4 + 3
bit_or-flags a =
    let quarter : a * 4 / 2 ≡ a * 2 = omega arith in
    let half : a * 2 / 2 ≡ a = omega arith in
    bit_or_step (a * 4) 3
    ∙ omega (
      arith,
      ap (λ x. bit_or x 1) quarter,
      bit_or_step (a * 2) 1,
      ap (λ x. bit_or x 0) half,
      or_zero a a (omega arith),
    )
