-- ===== src/Memory/Tests.antt =====
-- A concrete memory map.
use wig_osx.Base.{ℕ, ◌≡◌, refl, arith, ◌==◌, if◌then◌else◌, some}
use mathlib.Core.Option
use wig_osx.Memory.{Memory, initialize}
use wig_osx.Memory.Start.{Started, initialize-Started}
use wig_osx.Multiboot.{PhysicalMemory, IsBytes}
use wig_osx.Status.{Status, ok}

-- Boot information at 100, whose map at 200 has one entry: 2 MiB of usable memory from 1 MiB on.
abbrev pub boot_memory : PhysicalMemory
boot_memory a =
    if a == 100
    then 64
    else if a == 144
    then 24
    else if a == 148
    then 200
    else if a == 200
    then 20
    else if a == 206
    then 16
    else if a == 214
    then 32
    else if a == 220
    then 1
    else 0

pub boot_memory-IsBytes : IsBytes boot_memory
boot_memory-IsBytes a = ground arith

initialize-Started_example :
    (r : Status × Memory) × (initialize boot_memory 100 ≡ some r) × Started boot_memory 100 r
initialize-Started_example = initialize-Started boot_memory 100 boot_memory-IsBytes

-- The map is accepted, with 2 MiB of usable memory.
accepted_bytes :
    Option.map {B = Status × ℕ}
      (λ (r : Status × Memory). (r.0, r.1.total_usable_bytes))
      (initialize boot_memory 100)
    ≡ some (ok, 0x200000)
unfolding initialize wig_osx.Memory.read_multiboot_map wig_osx.Memory.read_entries
    wig_osx.Memory.read_round wig_osx.Multiboot.read_info wig_osx.Multiboot.read_entry
    wig_osx.Multiboot.read32 wig_osx.Multiboot.read64 wig_osx.Memory.add_region
    wig_osx.Memory.reset_summary wig_osx.Memory.check_count wig_osx.Memory.set_available
    wig_osx.Memory.entry_is_malformed wig_osx.Memory.region_type wig_osx.Memory.set_basic
    wig_osx.Memory.count_region wig_osx.Memory.store_region
accepted_bytes = refl
