-- ===== src/Serial/Tests.antt =====
-- Concrete ports.
use wig_osx.Base.{
  ℕ, ◌%◌, ◌==◌, if◌then◌else◌, ◌+◌, ◌*◌, ◌≤◌, ◌≡◌, refl, true, List, [], ◌∷◌, ◌++◌, length, arith,
}
use wig_osx.Serial.{
  Serial, write, initialize, putchar, send, wait_can_transmit, wait_at_most, transmit_timeout,
  can_transmit,
}
use wig_osx.Serial.Responsive.{Responsive, write-Responsive}
use wig_osx.Serial.Sent.{crlf, outs}
use wig_osx.Serial.Trace.{Run, write-Run}

-- The transmitter is always free.
abbrev always_free : ℕ → ℕ
always_free n = 0x60

always_free-Responsive : Responsive always_free
always_free-Responsive n = (0, omega arith, refl)

abbrev working : Serial
working = record { initialized = true; reads = 7; writes = [] }

-- `A` and a newline.
abbrev line : List ℕ
line = 65 ∷ (10 ∷ [])

-- The transmitter is busy at every other read.
abbrev at_even_reads : ℕ → ℕ
at_even_reads n = if n % 2 == 0 then 0x60 else 0

write-Run_example : Run at_even_reads working (crlf line) (write at_even_reads working line)
write-Run_example = write-Run at_even_reads working line refl

write-Responsive_example :
    ((initialize always_free working).0 ≡ true)
    × ((initialize always_free working).1.initialized ≡ true)
    × ((write always_free working line).writes ≡ [] ++ outs (crlf line))
    × ((write always_free working line).reads ≤ 7 + length (crlf line) * 100001)
    × ((write always_free working line).initialized ≡ true)
write-Responsive_example =
    write-Responsive always_free always_free-Responsive working working line refl

sent_bytes : (write always_free working line).writes ≡ outs (65 ∷ (13 ∷ (10 ∷ [])))
unfolding write putchar send wait_can_transmit wait_at_most transmit_timeout can_transmit
sent_bytes = refl
