-- ===== src/Memory/Print.antt =====
-- What `memory_print_summary` writes to the log.
use wig_osx.Base.{ℕ, zero, suc, ◌/◌, not, List, [], ◌∷◌, ◌++◌, if◌then◌else◌, get_or}
use wig_osx.Base.Text.{text}
use wig_osx.Log.{Call, put, say, decimal64}
use wig_osx.Memory.{Memory, Region, RegionType, usable, reserved, empty_region}
use wig_osx.Version.{stage_label}

unfoldable pub print_kib : ℕ → List Call
print_kib bytes = decimal64 (bytes / 1024) ∷ say (text " KB") ∷ []

unfoldable pub region_type_name : RegionType → List ℕ
region_type_name usable = text "usable"
region_type_name reserved = text "reserved"

unfoldable pub print_region : ℕ → Region → List Call
unfolding print_kib
print_region i r =
    say (text "Region ")
    ∷ decimal64 i
    ∷ say (text ": ")
    ∷ say (region_type_name r.kind)
    ∷ say (text ", base=")
    ∷ (print_kib r.base_address ++ (say (text ", length=") ∷ (print_kib r.length ++ (put 10 ∷ []))))

-- The loop over the stored regions.
unfoldable pub print_regions : ℕ → ℕ → List Region → List Call
print_regions zero i regions = []
print_regions (suc left) i regions =
    print_region i (get_or regions i empty_region) ++ print_regions left (suc i) regions

unfoldable pub print_basic : Memory → List Call
print_basic s =
    if s.basic_available
    then say (text "Lower memory: ")
      ∷ decimal64 s.lower_kb
      ∷ say (text " KB\n")
      ∷ say (text "Upper memory: ")
      ∷ decimal64 s.upper_kb
      ∷ say (text " KB\n")
      ∷ []
    else say (text "Basic memory information: unavailable\n") ∷ []

unfoldable pub print_map : Memory → List Call
unfolding print_kib
print_map s =
    say (text "Memory map: available and normalized\n")
    ∷ say (text "Stored memory regions: ")
    ∷ decimal64 s.region_count
    ∷ put 10
    ∷ say (text "Usable memory regions: ")
    ∷ decimal64 s.usable_region_count
    ∷ put 10
    ∷ say (text "Reserved memory regions: ")
    ∷ decimal64 s.reserved_region_count
    ∷ put 10
    ∷ say (text "Total usable memory: ")
    ∷ (print_kib s.total_usable_bytes
        ++ (put 10
            ∷ say (text "Total reserved memory: ")
            ∷ (print_kib s.total_reserved_bytes
                ++ (put 10
                    ∷ ((if s.map_truncated
                          then say
                              (text "WARNING: memory map truncated; increase MEMORY_MAX_REGIONS.\n")
                            ∷ []
                          else [])
                        ++ print_regions s.region_count 0 s.regions)))))

unfoldable pub print_summary : Memory → List Call
unfolding print_basic print_map
print_summary s =
    say stage_label
    ∷ say (text ".\n")
    ∷ (print_basic s
        ++ (if not s.map_available
            then say (text "Memory map: unavailable\n") ∷ []
            else print_map s))
