-- ===== src/Heap/Tests.antt =====
-- The heap on a concrete region.
use wig_osx.Base.{◌≡◌, refl, true, false, ◌-◌}
use wig_osx.Heap.{
  Heap, initialize, IsRegion, initialize-IsRegion, get_start_address, get_end_address, get_capacity,
}
use wig_osx.Status.{ok}

abbrev none_yet : Heap
none_yet = record { initialized = false; start_address = 0; end_address = 0; capacity = 0 }

none_yet-IsRegion : IsRegion none_yet
unfolding get_start_address get_end_address get_capacity
none_yet-IsRegion = (refl, refl, refl, refl)

-- 64 KiB from 2 MiB on.
initialize-IsRegion_example :
    IsRegion (initialize 0x200000 0x210000 none_yet).1
    × (initialize 0x200000 0x210000 none_yet ≡ (
      ok,
      record {
        initialized = true;
        start_address = 0x200000;
        end_address = 0x210000;
        capacity = 0x210000 - 0x200000;
      },
    ))
initialize-IsRegion_example = initialize-IsRegion 0x200000 0x210000 none_yet none_yet-IsRegion
