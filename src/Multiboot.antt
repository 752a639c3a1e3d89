-- ===== src/Multiboot.antt =====
-- What the boot loader leaves in memory: include/kernel/boot/multiboot.h.
-- Memory is read byte by byte, little-endian, as i386 does. What it holds is a parameter.
use wig_osx.Base.{ℕ, ◌+◌, ◌*◌, ◌<◌, arith}

-- The byte at each physical address.
abbrev pub PhysicalMemory : Type 0
PhysicalMemory = ℕ → ℕ

unfoldable pub read32 : PhysicalMemory → ℕ → ℕ
read32 m a = m a + 256 * m (a + 1) + 65536 * m (a + 2) + 16777216 * m (a + 3)

unfoldable pub read64 : PhysicalMemory → ℕ → ℕ
read64 m a = read32 m a + 4294967296 * read32 m (a + 4)

-- Every cell holds a byte, so words fit their width.
abbrev pub IsBytes : PhysicalMemory → Type 0
IsBytes m = (a : ℕ) → m a < 256

pub read32-lt : (m : PhysicalMemory) (a : ℕ) → IsBytes m → read32 m a < 4294967296
unfolding read32
read32-lt m a b = omega (arith, b a, b (a + 1), b (a + 2), b (a + 3))

pub read64-lt : (m : PhysicalMemory) (a : ℕ) → IsBytes m → read64 m a < 18446744073709551616
unfolding read64
read64-lt m a b = omega (arith, read32-lt m a b, read32-lt m (a + 4) b)

-- `multiboot_info_t`: the fields that the kernel reads, at their offsets.
pub record MultibootInfo : Type 0 where
  pub flags : ℕ
  pub mem_lower : ℕ
  pub mem_upper : ℕ
  pub mmap_length : ℕ
  pub mmap_addr : ℕ

abbrev pub info_size : ℕ
info_size = 52

unfoldable pub read_info : PhysicalMemory → ℕ → MultibootInfo
read_info m a = record {
  flags = read32 m a;
  mem_lower = read32 m (a + 4);
  mem_upper = read32 m (a + 8);
  mmap_length = read32 m (a + 44);
  mmap_addr = read32 m (a + 48);
}

-- `multiboot_memory_map_entry_t`, packed.
pub record MemoryMapEntry : Type 0 where
  pub size : ℕ
  pub base_addr : ℕ
  pub len : ℕ
  pub kind : ℕ

-- `sizeof(multiboot_memory_map_entry_t) - sizeof(uint32_t)`.
abbrev pub memory_map_base_size : ℕ
memory_map_base_size = 20

unfoldable pub read_entry : PhysicalMemory → ℕ → MemoryMapEntry
read_entry m a = record {
  size = read32 m a;
  base_addr = read64 m (a + 4);
  len = read64 m (a + 12);
  kind = read32 m (a + 20);
}

-- `MULTIBOOT_INFO_MEMORY` and `MULTIBOOT_INFO_MEMORY_MAP`.
abbrev pub info_memory : ℕ
info_memory = 1

abbrev pub info_memory_map : ℕ
info_memory_map = 64

-- `MULTIBOOT_MEMORY_AVAILABLE`.
abbrev pub memory_available : ℕ
memory_available = 1
