-- ===== src/Vmm.antt =====
-- The virtual memory manager, src/mm/vmm.c, over identity paging.
pub mod Print
mod Tests
use wig_osx.Base.{
  ℕ, ◌+◌, ◌*◌, ◌≤◌, ◌<◌, ◌≡◌, refl, ◌∙◌, ap, Bool, true, false, ◌&&◌, not, arith, ◌==◌,
  if◌then◌else◌, bit_and, bit_or,
}
use wig_osx.Base.Bits.{bit, bit-bit_or, bit-pow, bit-le-one, bit_and-pow}
use wig_osx.Paging.{
  Paging, is_enabled, initialize_identity, get_identity_mapped_bytes, cr0_paging_enable,
  identity_mapped_bytes,
}
use wig_osx.Status.{Status, ok, hardware_failure}

-- `vmm_initialized`, and the state of paging.
pub record Vmm : Type 0 where
  pub initialized : Bool
  pub paging : Paging

unfoldable pub initialize : ℕ → (ℕ → ℕ) → Vmm → Status × Vmm
initialize directory_address tables_address s =
    let paging = initialize_identity directory_address tables_address s.paging in
    let enabled = is_enabled paging in
    let t : Vmm = record { initialized = enabled; paging = paging } in
    if not enabled then (hardware_failure, t) else (ok, t)

unfoldable pub vmm_is_enabled : Vmm → Bool
vmm_is_enabled s = s.initialized && is_enabled s.paging

unfoldable pub vmm_get_identity_mapped_bytes : Vmm → ℕ
vmm_get_identity_mapped_bytes s = get_identity_mapped_bytes s.paging

-- A control register keeps the bit that was set.
enabled_lem : (cr0 : ℕ) → (bit_and (bit_or cr0 cr0_paging_enable) cr0_paging_enable == 0) ≡ false
enabled_lem cr0 = ground (
  arith,
  bit_and-pow 31 (bit_or cr0 cr0_paging_enable),
  bit-bit_or 31 cr0 cr0_paging_enable,
  bit-pow 31 31,
  bit-le-one cr0 31,
)

identity_lem :
    (directory_address : ℕ) (tables_address : ℕ → ℕ) (s : Paging)
    → let p = initialize_identity directory_address tables_address s in
      (is_enabled p ≡ true) × (p.initialized ≡ true)
unfolding initialize_identity is_enabled
identity_lem directory_address tables_address s = let e = ap (λ b. not b) (enabled_lem _) in (e, e)

-- On a processor whose CR0 keeps what is written to it, `vmm_initialize` succeeds from any state; afterwards
-- paging is reported as enabled, with 16 MiB mapped.
pub initialize-enabled :
    (directory_address : ℕ) (tables_address : ℕ → ℕ) (s : Vmm)
    → let r = initialize directory_address tables_address s in
      (r.0 ≡ ok) × (vmm_is_enabled r.1 ≡ true) × (vmm_get_identity_mapped_bytes r.1 ≡ 16777216)
unfolding initialize vmm_is_enabled vmm_get_identity_mapped_bytes get_identity_mapped_bytes
initialize-enabled directory_address tables_address s =
    let (e, i) = identity_lem directory_address tables_address s.paging in
    (rw e refl, rw e e, rw (e, i) refl)
