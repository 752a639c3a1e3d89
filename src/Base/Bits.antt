-- ===== src/Base/Bits.antt =====
-- Bits of a number, and how `&` and `|` act on them.
mod Step
pub mod Or
use Step.{bit_or_step, bit_and_step}
use Prim.Native.Nat.{
  ℕ, zero, suc, ◌+◌, ◌-◌, ◌*◌, ◌/◌, ◌%◌, ◌^◌, ◌≤◌, ◌<◌, min, max, bit_and, bit_or,
}
use mathlib.Core.Path.{◌≡◌, refl, ap, ◌∙◌}
use mathlib.Core.Logic.{◌≢◌}
use native.Mathlib.Nat.{pow-suc, one-le-pow, div-div-eq-div-mul}
use mathlib.Core.Bool.{Bool, true, false, ◌&&◌}
use native.Mathlib.Omega.{arith}
use wig_osx.Base.Tests.{◌==◌, if◌then◌else◌}

pub pow-lt-pow : (j n : ℕ) → j < n → 2 ^ j < 2 ^ n
pow-lt-pow j zero h = absurd (omega arith)
pow-lt-pow zero (suc n) h = omega (arith, pow-suc 2 n, one-le-pow n 2)
pow-lt-pow (suc j) (suc n) h = omega (arith, pow-suc 2 n, pow-suc 2 j, pow-lt-pow j n (omega arith))

-- Bit `k` of `w`, as 0 or 1.
unfoldable pub bit : ℕ → ℕ → ℕ
bit w zero = w % 2
bit w (suc k) = bit (w / 2) k

pub bit-le-one : (w k : ℕ) → bit w k ≤ 1
unfolding bit
bit-le-one w zero = omega arith
bit-le-one w (suc k) = bit-le-one (w / 2) k

pub zero-bit : (k : ℕ) → bit 0 k ≡ 0
unfolding bit
zero-bit zero = refl
zero-bit (suc k) = zero-bit k

pub bit-bit_and : (k a b : ℕ) → bit (bit_and a b) k ≡ min (bit a k) (bit b k)
unfolding bit
bit-bit_and zero a b = omega (arith, bit_and_step a b)
bit-bit_and (suc k) a b =
    let e : bit_and a b / 2 ≡ bit_and (a / 2) (b / 2) = omega (arith, bit_and_step a b) in
    rw e (bit-bit_and k (a / 2) (b / 2))

pub bit-bit_or : (k a b : ℕ) → bit (bit_or a b) k ≡ max (bit a k) (bit b k)
unfolding bit
bit-bit_or zero a b = omega (arith, bit_or_step a b)
bit-bit_or (suc k) a b =
    let e : bit_or a b / 2 ≡ bit_or (a / 2) (b / 2) = omega (arith, bit_or_step a b) in
    rw e (bit-bit_or k (a / 2) (b / 2))

-- `1 << j` has bit `j` alone.
pub bit-pow : (j k : ℕ) → bit (2 ^ j) k ≡ (if j == k then 1 else 0)
unfolding bit
bit-pow zero zero = refl
bit-pow zero (suc k) = ground (arith, zero-bit k)
bit-pow (suc j) zero = ground (arith, pow-suc 2 j)
bit-pow (suc j) (suc k) =
    let e : 2 ^ suc j / 2 ≡ 2 ^ j = omega (arith, pow-suc 2 j) in rw e (ground (arith, bit-pow j k))

-- A word of `n` ones.
pub bit-ones : (n k : ℕ) → k < n → bit (2 ^ n - 1) k ≡ 1
unfolding bit
bit-ones zero k h = absurd (omega arith)
bit-ones (suc n) zero h = omega (arith, pow-suc 2 n, one-le-pow n 2)
bit-ones (suc n) (suc k) h =
    let e : (2 ^ suc n - 1) / 2 ≡ 2 ^ n - 1 = omega (arith, pow-suc 2 n, one-le-pow n 2) in
    rw e (bit-ones n k (omega arith))

-- `~(1 << j)` in a word of `n` bits has every bit but `j`.
pub bit-complement :
    (n j k : ℕ) → j < n → k < n → bit (2 ^ n - 1 - 2 ^ j) k ≡ (if j == k then 0 else 1)
unfolding bit
bit-complement zero j k h q = absurd (omega arith)
bit-complement (suc n) zero zero h q = omega (arith, pow-suc 2 n, one-le-pow n 2)
bit-complement (suc n) zero (suc k) h q =
    let e : (2 ^ suc n - 1 - 1) / 2 ≡ 2 ^ n - 1 = omega (arith, pow-suc 2 n, one-le-pow n 2) in
    rw e (ground (arith, bit-ones n k))
bit-complement (suc n) (suc j) zero h q =
    let lt : 2 ^ j < 2 ^ n = pow-lt-pow j n (omega arith) in
    ground (arith, pow-suc 2 n, pow-suc 2 j, one-le-pow n 2)
bit-complement (suc n) (suc j) (suc k) h q =
    let lt : 2 ^ j < 2 ^ n = pow-lt-pow j n (omega arith) in
    let e : (2 ^ suc n - 1 - 2 ^ suc j) / 2 ≡ 2 ^ n - 1 - 2 ^ j =
      omega (arith, pow-suc 2 n, pow-suc 2 j) in
    rw e (ground (arith, bit-complement n j k))

bit_and-zero_below : (n a : ℕ) → a ≤ n → bit_and a 0 ≡ 0
bit_and-zero_below n zero h = refl
bit_and-zero_below zero (suc a) h = absurd (omega arith)
bit_and-zero_below (suc n) (suc a) h =
    omega (arith, bit_and_step (suc a) 0, bit_and-zero_below n (suc a / 2) (omega arith))

mod-mul-two : (a m : ℕ) → 0 < m → a % (m * 2) ≡ a / 2 % m * 2 + a % 2
mod-mul-two a m h = grind arith

-- `&` with 0.
pub bit_and-zero : (a : ℕ) → bit_and a 0 ≡ 0
bit_and-zero a = bit_and-zero_below a a (omega arith)

-- A word none of whose bits is set is 0.
pub eq-zero_of_bits : (n w : ℕ) → w < 2 ^ n → ((k : ℕ) → k < n → bit w k ≡ 0) → w ≡ 0
unfolding bit
eq-zero_of_bits zero w h z = omega arith
eq-zero_of_bits (suc n) w h z = omega (
  arith,
  z 0 (omega arith),
  eq-zero_of_bits n (w / 2) (omega (arith, pow-suc 2 n)) (λ k q. z (suc k) (omega arith)),
)

-- `w & (1 << k)` picks bit `k` out of a word.
pub bit_and-pow : (k w : ℕ) → bit_and w (2 ^ k) ≡ bit w k * 2 ^ k
unfolding bit
bit_and-pow zero w = omega (arith, bit_and_step w 1, bit_and-zero (w / 2))
bit_and-pow (suc k) w =
    let e : 2 ^ suc k / 2 ≡ 2 ^ k = omega (arith, pow-suc 2 k) in
    let low : 2 ^ suc k % 2 ≡ 0 = omega (arith, pow-suc 2 k) in
    omega (
      arith,
      bit_and_step w (2 ^ suc k),
      ap (bit_and (w / 2)) e,
      low,
      bit_and-pow k (w / 2),
      ap (λ (t : ℕ). bit (w / 2) k * t) (pow-suc 2 k),
    )

-- A mask of `k` ones takes the remainder by `2 ^ k`.
pub bit_and-ones : (k a : ℕ) → bit_and a (2 ^ k - 1) ≡ a % 2 ^ k
bit_and-ones zero a = omega (arith, bit_and-zero a)
bit_and-ones (suc k) a =
    let e : (2 ^ suc k - 1) / 2 ≡ 2 ^ k - 1 = omega (arith, pow-suc 2 k, one-le-pow k 2) in
    let low : (2 ^ suc k - 1) % 2 ≡ 1 = omega (arith, pow-suc 2 k, one-le-pow k 2) in
    let twice : a % (2 ^ k * 2) ≡ a / 2 % 2 ^ k * 2 + a % 2 =
      mod-mul-two a (2 ^ k) (one-le-pow k 2 (omega arith)) in
    omega (
      arith,
      bit_and_step a (2 ^ suc k - 1),
      ap (bit_and (a / 2)) e,
      low,
      bit_and-ones k (a / 2),
      ap (λ (t : ℕ). a % t) (pow-suc 2 k),
      twice,
    )

-- A mask that leaves out the `k` lowest bits of a word.
pub bit_and-high : (k m a : ℕ) → bit_and a (m * 2 ^ k) ≡ bit_and (a / 2 ^ k) m * 2 ^ k
bit_and-high zero m a = ground (arith)
bit_and-high (suc k) m a =
    let mask : m * 2 ^ suc k ≡ m * 2 ^ k * 2 = omega (arith, ap (λ (t : ℕ). m * t) (pow-suc 2 k)) in
    let half : m * 2 ^ k * 2 / 2 ≡ m * 2 ^ k = omega arith in
    let shift : a / 2 / 2 ^ k ≡ a / 2 ^ suc k =
      div-div-eq-div-mul a 2 (2 ^ k) ∙ ap (λ (t : ℕ). a / t) (omega (arith, pow-suc 2 k)) in
    omega (
      arith,
      ap (bit_and a) mask,
      bit_and_step a (m * 2 ^ k * 2),
      ap (bit_and (a / 2)) half,
      bit_and-high k m (a / 2),
      ap (λ (t : ℕ). bit_and t m * 2 ^ k) shift,
      ap (λ (t : ℕ). bit_and (a / 2 ^ suc k) m * t) (pow-suc 2 k),
    )

-- Taking a number modulo `2 ^ n` keeps its `n` lowest bits.
pub bit-mod : (n k a : ℕ) → k < n → bit (a % 2 ^ n) k ≡ bit a k
unfolding bit
bit-mod zero k a h = absurd (omega arith)
bit-mod (suc n) zero a h = omega (
  arith,
  ap (λ (t : ℕ). a % t) (pow-suc 2 n),
  mod-mul-two a (2 ^ n) (one-le-pow n 2 (omega arith)),
)
bit-mod (suc n) (suc k) a h =
    let e : a % 2 ^ suc n / 2 ≡ a / 2 % 2 ^ n = omega (
      arith,
      ap (λ (t : ℕ). a % t) (pow-suc 2 n),
      mod-mul-two a (2 ^ n) (one-le-pow n 2 (omega arith)),
    ) in
    rw e (bit-mod n k (a / 2) (omega arith))

-- Over a small range, every value is checked by evaluation.
unfoldable pub all_below : ℕ → (ℕ → Bool) → Bool
all_below zero good = true
all_below (suc n) good = good n && all_below n good

pub all_below_sound :
    (n : ℕ) (good : ℕ → Bool) (v : ℕ) → all_below n good ≡ true → v < n → good v ≡ true
unfolding all_below
all_below_sound zero good v every small = absurd (omega arith)
all_below_sound (suc n) good v every small = ground (arith, all_below_sound n good v)
