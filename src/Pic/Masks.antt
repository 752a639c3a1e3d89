-- ===== src/Pic/Masks.antt =====
-- Unmasking a line, in terms of the mask bits that the controllers are left with.
use wig_osx.Base.{
  ℕ, ◌-◌, ◌^◌, ◌<◌, ◌≡◌, ◌&&◌, ◌||◌, List, [], ◌∷◌, arith, ltb, leb, ◌==◌, if◌then◌else◌, bit_and,
  uint32_max,
}
use wig_osx.Base.Bits.{bit, bit-le-one, bit-bit_and, bit-complement, bit-mod}
use wig_osx.Pic.{Write, master_data, slave_data, clear_mask_bit, unmask_irq}

-- The masks after a sequence of writes to the data ports of initialised controllers, where a write sets the
-- mask of its controller.
abbrev pub masks_after : List Write → ℕ × ℕ → ℕ × ℕ
masks_after [] m = m
masks_after (w ∷ ws) (master, slave) = masks_after ws (
    if w.port == master_data
    then (w.value, slave)
    else if w.port == slave_data
    then (master, w.value)
    else (master, slave))

-- Bit of line `irq` among both masks: set means masked.
abbrev pub is_masked : ℕ × ℕ → ℕ → ℕ
is_masked (master, slave) irq = if ltb irq 8 then bit master irq else bit slave (irq - 8)

bit-clear_mask_bit :
    (value line k : ℕ)
    → line < 8
    → k < 8
    → bit (clear_mask_bit value line) k ≡ (if line == k then 0 else bit value k)
unfolding clear_mask_bit
bit-clear_mask_bit value line k h q = ground (
  arith,
  bit-mod 8 k (bit_and value (uint32_max - 2 ^ line)) q,
  bit-bit_and k value (uint32_max - 2 ^ line),
  bit-complement 32 line k (omega arith) (omega arith),
  bit-le-one value k,
)

-- `pic_unmask_irq` accepts the lines 0 to 15. It unmasks the line, and for a line of the slave also the line
-- 2 of the master, through which the slave is wired; every other line stays as it was.
pub unmask_irq_lem :
    (irq master slave line : ℕ)
    → line < 16
    → ((unmask_irq irq master slave).0 ≡ leb irq 15)
      × (is_masked (masks_after (unmask_irq irq master slave).1 (master, slave)) line ≡ (
          if leb irq 15 && (irq == line || (leb 8 irq && line == 2))
          then 0
          else is_masked (master, slave) line))
unfolding unmask_irq
unmask_irq_lem irq master slave line h = ground (
  arith,
  bit-clear_mask_bit master irq line,
  bit-clear_mask_bit master 2 line,
  bit-clear_mask_bit slave (irq - 8) (line - 8),
)
