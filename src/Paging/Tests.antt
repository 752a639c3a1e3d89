-- ===== src/Paging/Tests.antt =====
-- The identity map on a concrete address.
use wig_osx.Base.{ℕ, ◌+◌, ◌*◌, ◌%◌, ◌≡◌, false, arith}
use wig_osx.Paging.{Paging, initialize_identity}
use wig_osx.Paging.Identity.{initialize_identity-identity}

abbrev before : Paging
before = record { directory = λ i. 9; tables = λ t p. 9; initialized = false; cr0 = 17; cr3 = 0 }

abbrev tables_at : ℕ → ℕ
tables_at t = 0x200000 + t * 4096

tables_at-aligned : (t : ℕ) → tables_at t % 4096 ≡ 0
tables_at-aligned t = omega arith

-- The screen's memory, and directory entry 5.
initialize_identity-identity_example :
    let u = initialize_identity 0x100000 tables_at before in
    (u.directory 0 ≡ 0x200003) × (u.tables 0 0xB8 ≡ 0xB8003) × (u.directory 5 ≡ 0)
initialize_identity-identity_example =
    initialize_identity-identity 0x100000 tables_at before 0xB8123 5 tables_at-aligned (omega arith)
      (omega arith) (omega arith)
