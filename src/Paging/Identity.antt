-- ===== src/Paging/Identity.antt =====
-- The tables map every address of the first 16 MiB to itself, and no other.
use wig_osx.Base.{
  ℕ, suc, ◌+◌, ◌*◌, ◌/◌, ◌%◌, ◌≤◌, ◌<◌, ◌≡◌, refl, sym, ◌∙◌, ap, ◌&&◌, arith, ltb, ◌==◌,
  if◌then◌else◌, bit_or, update,
}
use wig_osx.Base.Bits.Or.{bit_or-flags}
use wig_osx.Base.Loops.{for_range, for_range_inv}
use wig_osx.Paging.{
  Paging, set_page, clear_table, clear_tables, fill_table, build_identity_map, initialize_identity,
}

-- A loop of stores fills a range of cells.
stores_lem :
    (count : ℕ) (value : ℕ → ℕ) (s : Paging) (table : ℕ)
    → let after = for_range count 0 (λ page u. set_page table page (value page) u) s in
      ((t p : ℕ) → after.tables t p ≡ (if table == t && ltb p count then value p else s.tables t p))
      × (after.directory ≡ s.directory)
unfolding set_page
stores_lem count value s table =
    for_range_inv
      (λ n u.
        ((t p : ℕ) → u.tables t p ≡ (if table == t && ltb p n then value p else s.tables t p))
        × (u.directory ≡ s.directory))
      (λ page u. set_page table page (value page) u) count 0 count s (omega arith)
      (λ n u lo hi h. (λ t p. ground (arith, h.0 t p, h.0 table p, ap value {x = n} {y = p}), h.1))
      (λ t p. ground arith, refl)

-- The entry of a page in the identity map, and the value that clears one.
entry : ℕ → ℕ → ℕ
entry t p = bit_or ((t * 1024 + p) * 4096 % 4294967296) 3

-- `n` tables of the identity map are built.
record Built (n : ℕ) (tables_address : ℕ → ℕ) (s u : Paging) : Type 0 where
  pub tables : (t p : ℕ) → p < 1024 → u.tables t p ≡ (if ltb t n then entry t p else s.tables t p)
  pub directory :
      (i : ℕ) → u.directory i ≡ (if ltb i n then bit_or (tables_address i) 3 else s.directory i)

Built-round :
    (n : ℕ) (tables_address : ℕ → ℕ) (s u : Paging)
    → Built n tables_address s u
    → Built (suc n) tables_address s (
        let filled = fill_table n u in
        record filled { directory = update filled.directory n (bit_or (tables_address n) 3) })
unfolding fill_table entry
Built-round n tables_address s u b =
    let (cells, same) = stores_lem 1024 (λ p. entry n p) u n in
    record {
      tables =
          λ t p h. ground (arith, cells t p, b.tables t p h, ap (λ x. entry x p) {x = n} {y = t});
      directory = λ i. ground (
        arith,
        ap (λ (d : ℕ → ℕ). d i) same,
        b.directory i,
        ap (λ x. bit_or (tables_address x) 3) {x = n} {y = i},
      );
    }

build_identity_map-Built :
    (tables_address : ℕ → ℕ) (s : Paging)
    → Built 4 tables_address s (build_identity_map tables_address s)
unfolding build_identity_map
build_identity_map-Built tables_address s =
    for_range_inv (λ n u. Built n tables_address s u) _ 4 0 4 s (omega arith)
      (λ n u lo hi b. Built-round n tables_address s u b)
      (record { tables = λ t p h. ground arith; directory = λ i. ground arith })

clear_table-directory : (t : ℕ) (s : Paging) → (clear_table t s).directory ≡ s.directory
unfolding clear_table
clear_table-directory t s = (stores_lem 1024 (λ p. 0) s t).1

clear_tables-directory : (s : Paging) (i : ℕ) → i < 1024 → (clear_tables s).directory i ≡ 0
unfolding clear_tables
clear_tables-directory s i h =
    let start = for_range 1024 0 (λ i u. record u { directory = update u.directory i 0 }) s in
    let kept =
      for_range_inv (λ n u. u.directory ≡ start.directory) clear_table 4 0 4 start (omega arith)
        (λ n u lo hi e. clear_table-directory n u ∙ e) refl in
    let cleared =
      for_range_inv (λ n u. (k : ℕ) → u.directory k ≡ (if ltb k n then 0 else s.directory k))
        (λ i u. record u { directory = update u.directory i 0 }) 1024 0 1024 s (omega arith)
        (λ n u lo hi b k. ground (arith, b k)) (λ k. ground arith) in
    ap (λ (d : ℕ → ℕ). d i) kept ∙ cleared i ∙ ground arith

flags_lem : (a : ℕ) → a % 4096 ≡ 0 → bit_or a 3 ≡ a + 3
flags_lem a h =
    let e : a / 4 * 4 ≡ a = omega arith in
    ap (λ x. bit_or x 3) (sym e) ∙ bit_or-flags (a / 4) ∙ omega (arith, e)

-- After `i386_paging_initialize_identity`, whatever the tables held: the directory sends each address of the first
-- 16 MiB to its table, whose entry for the address is the address's own page, both present and writable; and
-- the directory's other entries are empty.
pub initialize_identity-identity :
    (directory_address : ℕ) (tables_address : ℕ → ℕ) (s : Paging) (v i : ℕ)
    → ((t : ℕ) → tables_address t % 4096 ≡ 0)
    → v < 16777216
    → 4 ≤ i
    → i < 1024
    → let u = initialize_identity directory_address tables_address s in
      (u.directory (v / 4194304) ≡ tables_address (v / 4194304) + 3)
      × (u.tables (v / 4194304) (v / 4096 % 1024) ≡ v / 4096 * 4096 + 3)
      × (u.directory i ≡ 0)
unfolding initialize_identity entry
initialize_identity-identity directory_address tables_address s v i aligned h lo hi =
    let b = build_identity_map-Built tables_address (clear_tables s) in
    let t = v / 4194304 in
    let p = v / 4096 % 1024 in
    (
      b.directory t ∙ ground (arith, flags_lem (tables_address t) (aligned t)),
      b.tables t p (omega arith)
          ∙ ground (arith, flags_lem ((t * 1024 + p) * 4096 % 4294967296) (omega arith)),
      b.directory i ∙ ground (arith, clear_tables-directory s i hi),
    )
