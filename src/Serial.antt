-- ===== src/Serial.antt =====
-- The serial port COM1, src/drivers/serial.c. What the line status register gives is a parameter: the byte at
-- each of its reads, in order.
pub mod Sent
pub mod Responsive
pub mod Trace
mod Tests
use wig_osx.Base.{
  ℕ, zero, suc, ◌+◌, ◌%◌, Bool, true, false, not, List, [], ◌∷◌, ◌++◌, ◌==◌, if◌then◌else◌, bit_and,
}
use wig_osx.Pic.{Write, outb}

-- `SERIAL_PORT_COM1` and `SERIAL_TRANSMIT_TIMEOUT`.
abbrev pub serial_port_com1 : ℕ
serial_port_com1 = 0x3F8

unfoldable pub transmit_timeout : ℕ
transmit_timeout = 100000

-- The file's static variable, how often the line status was read, and the writes to ports so far.
pub record Serial : Type 0 where
  pub initialized : Bool
  pub reads : ℕ
  pub writes : List Write

-- What `serial_initialize` writes before it waits.
abbrev pub setup : List Write
setup =
    outb (serial_port_com1 + 1) 0x00
    ∷ (outb (serial_port_com1 + 3) 0x80
        ∷ (outb (serial_port_com1 + 0) 0x03
            ∷ (outb (serial_port_com1 + 1) 0x00
                ∷ (outb (serial_port_com1 + 3) 0x03
                    ∷ (outb (serial_port_com1 + 2) 0xC7
                        ∷ (outb (serial_port_com1 + 4) 0x0B ∷ []))))))

module _ (line_status : ℕ → ℕ) where
  unfoldable pub can_transmit : Serial → Bool × Serial
  can_transmit s = (not (bit_and (line_status s.reads) 0x20 == 0), record s { reads = suc s.reads })

  -- The loop of `serial_wait_can_transmit`, with what is left of the timeout.
  unfoldable pub wait_at_most : ℕ → Serial → Bool × Serial
  wait_at_most zero s = can_transmit s
  wait_at_most (suc timeout) s =
      let (can, t) = can_transmit s in
      elim can [ true ↦ (true, t) | false ↦ wait_at_most timeout t ]

  unfoldable pub wait_can_transmit : Serial → Bool × Serial
  wait_can_transmit s = wait_at_most transmit_timeout s

  unfoldable pub initialize : Serial → Bool × Serial
  initialize s =
      let (done, t) =
        wait_can_transmit (record s { initialized = false; writes = s.writes ++ setup }) in
      (done, record t { initialized = done })

  -- The end of `serial_putchar`: the port is waited for, and the byte is written.
  unfoldable pub send : Serial → ℕ → Serial
  send s c =
      let (done, t) = wait_can_transmit s in
      if done
      then record t { writes = t.writes ++ (outb serial_port_com1 (c % 256) ∷ []) }
      else record t { initialized = false }

  -- `serial_putchar`, whose call of itself writes a carriage return.
  unfoldable pub putchar : Serial → ℕ → Serial
  putchar s c =
      if not s.initialized
      then s
      else if c == 10
      then (let returned = send s 13 in
          if not returned.initialized then returned else send returned c)
      else send s c

  -- `serial_write` and `serial_writestring`.
  unfoldable pub write : Serial → List ℕ → Serial
  write s [] = s
  write s (c ∷ cs) = write (putchar s c) cs
