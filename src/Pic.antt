-- ===== src/Pic.antt =====
-- The two 8259 interrupt controllers, src/arch/i386/hardware/pic.c. A function gives the writes to ports that it
-- makes, in order; what a read of a port gives is an argument.
pub mod Masks
mod Tests
use wig_osx.Base.{
  ℕ, ◌+◌, ◌-◌, ◌%◌, ◌^◌, Bool, true, false, List, [], ◌∷◌, ◌++◌, ltb, leb, if◌then◌else◌, bit_and,
  bit_or, uint32_max,
}

-- `outb(port, value)`.
pub record Write : Type 0 where
  pub port : ℕ
  pub value : ℕ

abbrev pub outb : ℕ → ℕ → Write
outb p v = record { port = p; value = v }

abbrev pub io_wait : Write
io_wait = outb 0x80 0

abbrev pub master_command : ℕ
master_command = 0x20

abbrev pub master_data : ℕ
master_data = 0x21

abbrev pub slave_command : ℕ
slave_command = 0xA0

abbrev pub slave_data : ℕ
slave_data = 0xA1

abbrev pub command_eoi : ℕ
command_eoi = 0x20

abbrev pub icw1 : ℕ
icw1 = bit_or 0x10 0x01

abbrev pub icw4_8086 : ℕ
icw4_8086 = 0x01

-- `PIC_MASTER_OFFSET` and `PIC_SLAVE_OFFSET`.
abbrev pub master_offset : ℕ
master_offset = 0x20

abbrev pub slave_offset : ℕ
slave_offset = 0x28

unfoldable pub remap : ℕ → ℕ → List Write
remap master_mask slave_mask =
    outb master_command icw1
    ∷ io_wait
    ∷ outb slave_command icw1
    ∷ io_wait
    ∷ outb master_data master_offset
    ∷ io_wait
    ∷ outb slave_data slave_offset
    ∷ io_wait
    ∷ outb master_data 0x04
    ∷ io_wait
    ∷ outb slave_data 0x02
    ∷ io_wait
    ∷ outb master_data icw4_8086
    ∷ io_wait
    ∷ outb slave_data icw4_8086
    ∷ io_wait
    ∷ outb master_data master_mask
    ∷ outb slave_data slave_mask
    ∷ []

unfoldable pub mask_all : List Write
mask_all = outb master_data 0xFF ∷ outb slave_data 0xFF ∷ []

-- `value &= ~(1 << bit)` on a byte.
unfoldable pub clear_mask_bit : ℕ → ℕ → ℕ
clear_mask_bit value line = bit_and value (uint32_max - 2 ^ line) % 256

-- The two reads give the masks of the two controllers.
unfoldable pub unmask_irq : ℕ → ℕ → ℕ → Bool × List Write
unmask_irq irq master_mask slave_mask =
    if ltb 15 irq
    then (false, [])
    else if ltb irq 8
    then (true, outb master_data (clear_mask_bit master_mask irq) ∷ [])
    else (
      true,
      outb slave_data (clear_mask_bit slave_mask (irq - 8))
          ∷ outb master_data (clear_mask_bit master_mask 2)
          ∷ [],
    )

unfoldable pub send_eoi : ℕ → List Write
send_eoi irq =
    if ltb 15 irq
    then []
    else if leb 8 irq
    then outb slave_command command_eoi ∷ outb master_command command_eoi ∷ []
    else outb master_command command_eoi ∷ []
