-- ===== src/Vmm/Print.antt =====
-- What `vmm_print_summary` writes to the log.
use wig_osx.Base.{List, [], ◌∷◌, if◌then◌else◌}
use wig_osx.Base.Text.{text}
use wig_osx.Log.{Call, put, say, decimal32}
use wig_osx.Vmm.{Vmm, vmm_is_enabled, vmm_get_identity_mapped_bytes}

unfoldable pub print_summary : Vmm → List Call
print_summary s =
    say (text "Virtual memory manager: ")
    ∷ say (if vmm_is_enabled s then text "enabled\n" else text "disabled\n")
    ∷ say (text "Identity-mapped bytes: ")
    ∷ decimal32 (vmm_get_identity_mapped_bytes s)
    ∷ put 10
    ∷ []
