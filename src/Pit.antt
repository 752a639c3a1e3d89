-- ===== src/Pit.antt =====
-- The timer, src/drivers/pit.c: programming of the 8253, and the tick count.
mod Tests
use Prim.Native.String.{String}
use wig_osx.Base.{
  ℕ, ◌+◌, ◌-◌, ◌*◌, ◌/◌, ◌%◌, ◌≤◌, ◌<◌, ◌≡◌, refl, ap, ◌∙◌, Bool, true, false, ◌&&◌, ◌||◌, List, [],
  ◌∷◌, arith, ltb, leb, ◌⊎◌, inl, inr, Bool-cases, ◌==◌, if◌then◌else◌, bit_and, bit_or, add32,
}
use wig_osx.Base.Bits.{bit_and-ones}
use wig_osx.Pic.{Write, outb}

abbrev pub base_frequency : ℕ
base_frequency = 1193182

abbrev pub channel0_port : ℕ
channel0_port = 0x40

abbrev pub command_port : ℕ
command_port = 0x43

abbrev pub max_divisor : ℕ
max_divisor = 65535

-- `PIT_MIN_FREQUENCY_HZ`: the frequency whose divisor just fits 16 bits, rounded up.
abbrev pub min_frequency_hz : ℕ
min_frequency_hz = (base_frequency + max_divisor - 1) / max_divisor

-- The result, the tick count after, and the writes to ports in order.
pub record Programmed : Type 0 where
  pub done : Bool
  pub ticks : ℕ
  pub writes : List Write

unfoldable pub initialize : ℕ → ℕ → Programmed
initialize ticks frequency_hz =
    if ltb frequency_hz min_frequency_hz || ltb base_frequency frequency_hz
    then record { done = false; ticks = ticks; writes = [] }
    else let divisor = base_frequency / frequency_hz in
      if divisor == 0 || ltb max_divisor divisor
      then record { done = false; ticks = ticks; writes = [] }
      else record {
        done = true;
        ticks = 0;
        writes =
            outb command_port (bit_or (bit_or (bit_or 0x00 0x30) 0x06) 0x00)
            ∷ outb channel0_port (bit_and divisor 0xFF)
            ∷ outb channel0_port (bit_and (divisor / 256) 0xFF)
            ∷ [];
      }

-- The message of every hundredth tick.
tick_message : ℕ → List String
tick_message ticks =
    "[wigOSX] PIT tick: "
    ∷ (if ticks == 100
        then "100\n"
        else if ticks == 200
        then "200\n"
        else if ticks == 300
        then "300\n"
        else "another second passed\n")
    ∷ []

-- `pit_handle_interrupt`: the tick count after, and what is written to the serial port.
unfoldable pub handle_interrupt : ℕ → ℕ × List String
unfolding tick_message
handle_interrupt ticks =
    let next = add32 ticks 1 in (next, if next % 100 == 0 then tick_message next else [])

-- The divisor that the timer is left with: the command selects low byte, then high byte.
abbrev pub divisor_of : List Write → ℕ
divisor_of (command ∷ (low ∷ (high ∷ []))) = low.value + 256 * high.value
divisor_of _ = 0

quotient_bounds :
    (f : ℕ)
    → 19 ≤ f
    → f ≤ base_frequency
    → (1 ≤ base_frequency / f) × (base_frequency / f ≤ max_divisor)
quotient_bounds f h k = (grind arith, grind arith)

-- The divisor written is the quotient.
programmed :
    (ticks f : ℕ)
    → 19 ≤ f
    → f ≤ base_frequency
    → initialize ticks f ≡ record {
      done = true;
      ticks = 0;
      writes =
          outb command_port 0x36
          ∷ outb channel0_port (base_frequency / f % 256)
          ∷ outb channel0_port (base_frequency / f / 256)
          ∷ [];
    }
unfolding initialize
programmed ticks f h k = ground (
  arith,
  quotient_bounds f h k,
  bit_and-ones 8 (base_frequency / f),
  bit_and-ones 8 (base_frequency / f / 256),
)

-- `pit_initialize` accepts exactly the frequencies from 19 Hz to 1193182 Hz. It then writes the command 0x36
-- and a divisor from 1 to 65535, low byte first, that is the base frequency over the frequency asked
-- for, rounded down; and the tick count starts at 0. It refuses any other with no write and no change.
pub initialize_lem :
    (ticks f : ℕ)
    → ((19 ≤ f)
        × (f ≤ 1193182)
        × (initialize ticks f ≡ record {
          done = true;
          ticks = 0;
          writes =
              outb command_port 0x36
              ∷ outb channel0_port (base_frequency / f % 256)
              ∷ outb channel0_port (base_frequency / f / 256)
              ∷ [];
        })
        × (divisor_of (initialize ticks f).writes ≡ base_frequency / f)
        × (1 ≤ base_frequency / f)
        × (base_frequency / f ≤ max_divisor))
      ⊎ (((f < 19) ⊎ (1193182 < f))
          × (initialize ticks f ≡ record { done = false; ticks = ticks; writes = [] }))
unfolding initialize
initialize_lem ticks f = elim (Bool-cases (leb 19 f && leb f base_frequency)) [
  | inl e ↦
      let (lo, hi) = quotient_bounds f (ground arith) (ground arith) in
      let p = programmed ticks f (ground arith) (ground arith) in
      inl (
        ground arith,
        ground arith,
        p,
        ap (λ (r : Programmed). divisor_of r.writes) p ∙ omega arith,
        lo,
        hi,
      )
  | inr e ↦ inr (ground arith, ground arith)
]
