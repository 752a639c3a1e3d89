-- ===== src/Vmm/Tests.antt =====
-- Paging is turned on.
use wig_osx.Base.{◌≡◌, true, false}
use wig_osx.Status.{ok}
use wig_osx.Vmm.{Vmm, initialize, vmm_is_enabled, vmm_get_identity_mapped_bytes, initialize-enabled}

abbrev off : Vmm
off = record {
  initialized = false;
  paging = record { directory = λ i. 9; tables = λ t p. 9; initialized = false; cr0 = 17; cr3 = 0 };
}

initialize-enabled_example :
    let r = initialize 0x100000 (λ t. 0x200000) off in
    (r.0 ≡ ok) × (vmm_is_enabled r.1 ≡ true) × (vmm_get_identity_mapped_bytes r.1 ≡ 16777216)
initialize-enabled_example = initialize-enabled 0x100000 (λ t. 0x200000) off
