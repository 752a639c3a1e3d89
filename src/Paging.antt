-- ===== src/Paging.antt =====
-- Identity paging, src/arch/i386/memory/paging.c. The addresses of the static tables are arguments.
pub mod Identity
mod Tests
use wig_osx.Base.{
  ℕ, ◌+◌, ◌*◌, ◌/◌, ◌%◌, Bool, true, false, not, ◌==◌, if◌then◌else◌, bit_and, bit_or, update,
}
use wig_osx.Base.Loops.{for_range}

abbrev pub page_size : ℕ
page_size = 4096

abbrev pub identity_mapped_bytes : ℕ
identity_mapped_bytes = 16 * 1024 * 1024

abbrev pub directory_entry_count : ℕ
directory_entry_count = 1024

abbrev pub table_entry_count : ℕ
table_entry_count = 1024

-- `I386_PAGE_TABLE_COUNT`.
abbrev pub table_count : ℕ
table_count = identity_mapped_bytes / (page_size * table_entry_count)

-- Present and writable.
abbrev pub page_flags : ℕ
page_flags = bit_or 0x001 0x002

abbrev pub cr0_paging_enable : ℕ
cr0_paging_enable = 0x80000000

-- The file's static variables, and the control registers.
pub record Paging : Type 0 where
  pub directory : ℕ → ℕ
  pub tables : ℕ → ℕ → ℕ
  pub initialized : Bool
  pub cr0 : ℕ
  pub cr3 : ℕ

set_page : ℕ → ℕ → ℕ → Paging → Paging
set_page table page value s = record s {
  tables = update s.tables table (update (s.tables table) page value);
}

clear_table : ℕ → Paging → Paging
unfolding set_page
clear_table table s = for_range table_entry_count 0 (λ page u. set_page table page 0 u) s

unfoldable pub clear_tables : Paging → Paging
unfolding clear_table
clear_tables s =
    for_range table_count 0 clear_table
      (for_range directory_entry_count 0 (λ i u. record u { directory = update u.directory i 0 }) s)

-- The pages of one table of the identity map.
fill_table : ℕ → Paging → Paging
unfolding set_page
fill_table table s =
    for_range table_entry_count 0
      (λ page u.
        let page_index = table * table_entry_count + page in
        let physical_address = page_index * page_size % 4294967296 in
        set_page table page (bit_or physical_address page_flags) u)
      s

-- `tables_address table` is the address of `paging_tables[table]`.
unfoldable pub build_identity_map : (ℕ → ℕ) → Paging → Paging
unfolding fill_table
build_identity_map tables_address s =
    for_range table_count 0
      (λ table u.
        let filled = fill_table table u in
        record filled {
          directory = update filled.directory table (bit_or (tables_address table) page_flags);
        })
      s

unfoldable pub is_enabled : Paging → Bool
is_enabled s = not (bit_and s.cr0 cr0_paging_enable == 0)

unfoldable pub initialize_identity : ℕ → (ℕ → ℕ) → Paging → Paging
initialize_identity directory_address tables_address s =
    let built = build_identity_map tables_address (clear_tables s) in
    let loaded = record built {
      cr3 = directory_address;
      cr0 = bit_or built.cr0 cr0_paging_enable;
    } in
    record loaded { initialized = is_enabled loaded }

unfoldable pub get_identity_mapped_bytes : Paging → ℕ
get_identity_mapped_bytes s = if not s.initialized then 0 else identity_mapped_bytes
