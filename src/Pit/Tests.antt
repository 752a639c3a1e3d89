-- ===== src/Pit/Tests.antt =====
-- Programming the timer at concrete frequencies.
use wig_osx.Base.{◌/◌, ◌%◌, ◌≤◌, ◌<◌, ◌≡◌, ◌⊎◌, true, false, [], ◌∷◌}
use wig_osx.Pic.{outb}
use wig_osx.Pit.{
  initialize, initialize_lem, divisor_of, base_frequency, max_divisor, command_port, channel0_port,
}

-- 100 Hz, the frequency of the kernel.
initialize_lem_example :
    ((19 ≤ 100)
      × (100 ≤ 1193182)
      × (initialize 5 100 ≡ record {
        done = true;
        ticks = 0;
        writes =
            outb command_port 0x36
            ∷ outb channel0_port (base_frequency / 100 % 256)
            ∷ outb channel0_port (base_frequency / 100 / 256)
            ∷ [];
      })
      × (divisor_of (initialize 5 100).writes ≡ base_frequency / 100)
      × (1 ≤ base_frequency / 100)
      × (base_frequency / 100 ≤ max_divisor))
    ⊎ (((100 < 19) ⊎ (1193182 < 100))
        × (initialize 5 100 ≡ record { done = false; ticks = 5; writes = [] }))
initialize_lem_example = initialize_lem 5 100
