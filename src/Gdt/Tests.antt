-- ===== src/Gdt/Tests.antt =====
-- Concrete descriptors.
use wig_osx.Base.{ℕ, ◌+◌, ◌*◌, ◌≤◌, ◌≡◌, ◌/◌, arith, ◌==◌, if◌then◌else◌}
use wig_osx.Gdt.{GdtEntry, fields, set_entry, initialize, table_pointer}
use wig_osx.Gdt.Layout.{base_of, limit_of, flags_of, set_entry_lem, initialize-flat}

abbrev no_entries : ℕ → GdtEntry
no_entries i = fields 7 7 7 7

set_entry_lem_example :
    let after = set_entry no_entries 4 0x12345678 0xABCDE 0x9A 0xC0 in
    (base_of (after 4) ≡ 0x12345678)
    × (limit_of (after 4) ≡ 0xABCDE)
    × ((after 4).access ≡ 0x9A)
    × (flags_of (after 4) ≡ 0xC0 / 16)
    × (after 3 ≡ (if 4 == 3 then after 4 else no_entries 3))
set_entry_lem_example =
    set_entry_lem no_entries 4 0x12345678 0xABCDE 0x9A 0xC0 3 (omega arith) (omega arith)
      (omega arith)

initialize-flat_example :
    let e = initialize no_entries 1 in
    (base_of e ≡ 0)
    × (limit_of e ≡ 0xFFFFF)
    × (flags_of e ≡ 0xC)
    × (e.access ≡ 0x9A)
    × (1 * 8 + 7 ≤ (table_pointer 0x5000).limit)
initialize-flat_example = initialize-flat no_entries 1 0x5000 (omega arith)
