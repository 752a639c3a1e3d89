-- ===== src/Gdt.antt =====
-- The segment descriptor table, src/arch/i386/memory/gdt.c.
pub mod Layout
mod Tests
use wig_osx.Base.{
  ℕ, ◌+◌, ◌-◌, ◌*◌, ◌/◌, ◌%◌, ◌≤◌, ◌<◌, ◌≡◌, refl, ◌∙◌, ap, arith, ◌==◌, if◌then◌else◌, bit_and,
  bit_or, update, Bool, ltb, leb,
}
use wig_osx.Base.Bits.{bit_and-ones, bit_and-high}

-- `struct gdt_entry`.
pub record GdtEntry : Type 0 where
  pub limit_low : ℕ
  pub base_low : ℕ
  pub base_middle : ℕ
  pub access : ℕ
  pub granularity : ℕ
  pub base_high : ℕ

-- `struct gdt_pointer`.
pub record GdtPointer : Type 0 where
  pub limit : ℕ
  pub base : ℕ

-- What `gdt_initialize` loads for a table at an address: it has 3 entries of 8 bytes.
unfoldable pub table_pointer : ℕ → GdtPointer
table_pointer address = record { limit = 3 * 8 - 1; base = address }

-- The fields that `gdt_set_entry` stores.
abbrev pub fields : ℕ → ℕ → ℕ → ℕ → GdtEntry
fields base limit access granularity = record {
  limit_low = bit_and limit 0xFFFF;
  base_low = bit_and base 0xFFFF;
  base_middle = bit_and (base / 65536) 0xFF;
  access = access;
  granularity = bit_or (bit_and (limit / 65536) 0x0F) (bit_and granularity 0xF0);
  base_high = bit_and (base / 16777216) 0xFF;
}

unfoldable pub set_entry : (ℕ → GdtEntry) → ℕ → ℕ → ℕ → ℕ → ℕ → ℕ → GdtEntry
set_entry entries index base limit access granularity =
    update entries index (fields base limit access granularity)

-- `GDT_ACCESS_KERNEL_CODE`, `GDT_ACCESS_KERNEL_DATA` and `GDT_GRANULARITY_4K_32BIT`.
abbrev pub access_kernel_code : ℕ
access_kernel_code = bit_or (bit_or (bit_or (bit_or 0x80 0x00) 0x10) 0x08) 0x02

abbrev pub access_kernel_data : ℕ
access_kernel_data = bit_or (bit_or (bit_or 0x80 0x00) 0x10) 0x02

abbrev pub granularity_4k_32bit : ℕ
granularity_4k_32bit = bit_or 0x80 0x40

-- The table that `gdt_initialize` loads.
unfoldable pub initialize : (ℕ → GdtEntry) → ℕ → GdtEntry
initialize entries =
    set_entry
      (set_entry (set_entry entries 0 0 0 0 0) 1 0x00000000 0xFFFFF access_kernel_code
        granularity_4k_32bit)
      2 0x00000000 0xFFFFF access_kernel_data granularity_4k_32bit
