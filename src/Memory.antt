-- ===== src/Memory.antt =====
-- The normalised memory map, src/kernel/memory.c: the regions that the boot loader reports.
-- What it prints is in Print.
pub mod Store
pub mod Walk
pub mod Read
pub mod Start
pub mod Print
pub mod Tests
use wig_osx.Base.{
  ℕ, zero, suc, ◌+◌, ◌-◌, Bool, true, false, ◌&&◌, ◌||◌, not, Option, none, some, List, ltb, leb,
  ◌==◌, if◌then◌else◌, bit_and, uint32_max, uint64_max, add32, add64, get_elem?, set, replicate,
}
use mathlib.Core.Option
use wig_osx.Status.{Status, ok, invalid_argument, unavailable, malformed_data}
use wig_osx.Multiboot.{
  PhysicalMemory, MultibootInfo, MemoryMapEntry, read_info, read_entry, memory_map_base_size,
  info_memory, info_memory_map, memory_available,
}

pub data RegionType : Type 0 where
  usable : RegionType
  reserved : RegionType

pub record Region : Type 0 where
  pub base_address : ℕ
  pub length : ℕ
  pub kind : RegionType

-- `MEMORY_MAX_REGIONS`.
abbrev pub max_regions : ℕ
max_regions = 32

-- The file's static variables.
pub record Memory : Type 0 where
  pub initialized : Bool
  pub basic_available : Bool
  pub map_available : Bool
  pub map_truncated : Bool
  pub lower_kb : ℕ
  pub upper_kb : ℕ
  pub usable_region_count : ℕ
  pub reserved_region_count : ℕ
  pub total_usable_bytes : ℕ
  pub total_reserved_bytes : ℕ
  pub regions : List Region
  pub region_count : ℕ

abbrev pub empty_region : Region
empty_region = record { base_address = 0; length = 0; kind = reserved }

-- `memory_reset_summary`: the state after it, whatever it was before.
unfoldable pub reset_summary : Memory
reset_summary = record {
  initialized = false;
  basic_available = false;
  map_available = false;
  map_truncated = false;
  lower_kb = 0;
  upper_kb = 0;
  usable_region_count = 0;
  reserved_region_count = 0;
  total_usable_bytes = 0;
  total_reserved_bytes = 0;
  regions = replicate max_regions empty_region;
  region_count = 0;
}

-- The counters and totals of one more region.
unfoldable pub count_region : Memory → ℕ → RegionType → Memory
count_region s length usable = record s {
  usable_region_count = add32 s.usable_region_count 1;
  total_usable_bytes = add64 s.total_usable_bytes length;
}
count_region s length reserved = record s {
  reserved_region_count = add32 s.reserved_region_count 1;
  total_reserved_bytes = add64 s.total_reserved_bytes length;
}

unfoldable pub store_region : Memory → Region → Memory
store_region s r =
    if leb max_regions s.region_count then record s { map_truncated = true } else record s {
      regions = set s.regions s.region_count r;
      region_count = add32 s.region_count 1;
    }

unfoldable pub add_region : Memory → ℕ → ℕ → RegionType → Memory
unfolding count_region store_region
add_region s base_address length kind =
    if length == 0
    then s
    else store_region (count_region s length kind)
        (record { base_address = base_address; length = length; kind = kind })

-- Why an entry at the current address is refused, in the order of the code's checks.
unfoldable pub entry_is_malformed : MemoryMapEntry → ℕ → Bool
entry_is_malformed e remaining_bytes =
    ltb remaining_bytes 4
    || ltb e.size memory_map_base_size
    || ltb (uint32_max - 4) e.size
    || ltb remaining_bytes (4 + e.size)
    || (not (e.len == 0) && ltb (uint64_max - e.len) e.base_addr)

unfoldable pub region_type : MemoryMapEntry → RegionType
region_type e = if e.kind == memory_available then usable else reserved

-- How one round of the loop of `memory_read_multiboot_map` ends: by a return, or at the next address.
pub data Round : Type 0 where
  return : Status → Memory → Round
  continue : ℕ → Memory → Round

-- One round, entered at `current_address < end_address`.
unfoldable pub read_round : PhysicalMemory → ℕ → ℕ → Memory → Round
unfolding entry_is_malformed region_type
read_round m current_address end_address s =
    let entry = read_entry m current_address in
    if entry_is_malformed entry (end_address - current_address)
    then return malformed_data s
    else let t = add_region s entry.base_addr entry.len (region_type entry) in
      if t.map_truncated
      then return malformed_data t
      else continue (add32 current_address (4 + entry.size)) t

-- The loop. `none` means that the fuel ran out.
unfoldable pub read_entries : ℕ → PhysicalMemory → ℕ → ℕ → Memory → Option (Status × Memory)
read_entries zero m current_address end_address s =
    if ltb current_address end_address then none else some (ok, s)
read_entries (suc fuel) m current_address end_address s = elim (ltb current_address end_address) [
  | false ↦ some (ok, s)
  | true ↦ elim (read_round m current_address end_address s) [
    | return status t ↦ some (status, t)
    | continue next t ↦ read_entries fuel m next end_address t
  ]
]

-- What follows the loop: an empty map is refused.
unfoldable pub check_count : Status × Memory → Status × Memory
check_count (ok, s) = if s.region_count == 0 then (malformed_data, s) else (ok, s)
check_count (status, s) = (status, s)

-- `memory_read_multiboot_map`, whose `info` is not `NULL`. Each round takes 24 bytes or more.
unfoldable pub read_multiboot_map :
    PhysicalMemory → MultibootInfo → Memory → Option (Status × Memory)
read_multiboot_map m info s =
    if info.mmap_addr == 0 || info.mmap_length == 0
    then some (invalid_argument, s)
    else if ltb (uint32_max - info.mmap_addr) info.mmap_length
    then some (malformed_data, s)
    else Option.map check_count
        (read_entries info.mmap_length m info.mmap_addr (add32 info.mmap_addr info.mmap_length) s)

unfoldable pub set_basic : MultibootInfo → Memory → Memory
set_basic info s =
    if bit_and info.flags info_memory == 0
    then s
    else record s { basic_available = true; lower_kb = info.mem_lower; upper_kb = info.mem_upper }

unfoldable pub set_available : Status × Memory → Status × Memory
set_available (ok, s) = (ok, record s { map_available = true; initialized = true })
set_available (status, s) = (status, s)

unfoldable pub initialize : PhysicalMemory → ℕ → Option (Status × Memory)
unfolding set_basic set_available
initialize m multiboot_info_address =
    if multiboot_info_address == 0
    then some (invalid_argument, reset_summary)
    else let info = read_info m multiboot_info_address in
      let s = set_basic info reset_summary in
      if bit_and info.flags info_memory_map == 0 || info.mmap_addr == 0 || info.mmap_length == 0
      then some (unavailable, s)
      else Option.map set_available (read_multiboot_map m info s)

-- `memory_get_region`: `none` for `NULL`.
unfoldable pub get_region : Memory → ℕ → Option Region
get_region s index = if leb s.region_count index then none else get_elem? s.regions index
