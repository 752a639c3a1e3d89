-- ===== src/Base/Bits/Step.antt =====
-- `&` and `|` of native numbers by their lowest binary digit.
use Prim.Native.Nat.{ℕ, zero, suc, ◌+◌, ◌*◌, ◌/◌, ◌%◌, ◌≤◌, min, max, digits, bitwise}
use Prim.Native.Nat.{bit_and, bit_or, bit_and-bitwise, bit_or-bitwise}
use mathlib.Core.Path.{◌≡◌, refl}
use native.Mathlib.Nat.{le_refl}
use native.Mathlib.Omega.{arith}

-- Any fuel that the number does not exceed gives the same digits.
module _ (past : ℕ → ℕ) (pick : ℕ → ℕ → ℕ) where
  digits-enough : (k l x w : ℕ) → x ≤ k → x ≤ l → digits past pick k x w ≡ digits past pick l x w
  digits-enough zero zero x w p q = refl
  digits-enough zero (suc l) zero w p q = refl
  digits-enough zero (suc l) (suc x) w p q = absurd (omega arith)
  digits-enough (suc k) zero zero w p q = refl
  digits-enough (suc k) zero (suc x) w p q = absurd (omega arith)
  digits-enough (suc k) (suc l) zero w p q = refl
  digits-enough (suc k) (suc l) (suc x) w p q =
      rw (digits-enough k l (suc x / 2) (w / 2) (omega arith) (omega arith))

  bitwise_next :
      (x w : ℕ)
      → bitwise past pick (suc x) w
        ≡ bitwise past pick (suc x / 2) (w / 2) * 2 + pick (suc x % 2) (w % 2)
  bitwise_next x w =
      omega (arith, digits-enough x (suc x / 2) (suc x / 2) (w / 2) (omega arith) (le_refl _))

pub bit_and_step : (x w : ℕ) → bit_and x w ≡ bit_and (x / 2) (w / 2) * 2 + min (x % 2) (w % 2)
bit_and_step zero w = simp bit_and-bitwise (omega arith)
bit_and_step (suc x) w = simp bit_and-bitwise (bitwise_next (λ d. 0) min x w)

pub bit_or_step : (x w : ℕ) → bit_or x w ≡ bit_or (x / 2) (w / 2) * 2 + max (x % 2) (w % 2)
bit_or_step zero w = simp bit_or-bitwise (omega arith)
bit_or_step (suc x) w = simp bit_or-bitwise (bitwise_next (λ d. d) max x w)
