-- ===== src/Log.antt =====
-- The log, src/kernel/log.c: the console, and the serial port when it is there.
pub mod Render
pub mod Transcript
mod Tests
use wig_osx.Base.{ℕ, Bool, true, false, not, Option, none, some, List, [], ◌∷◌, if◌then◌else◌}
use wig_osx.Base.Text.{c_string}
use wig_osx.Console
use wig_osx.Console.{Console}
use wig_osx.Format.{
  Formatted, overrun, refused, written, uint32_decimal, uint64_decimal, uint32_hex,
}
use wig_osx.Serial
use wig_osx.Serial.{Serial}
use wig_osx.Status.{Status, ok, unavailable}

-- The file's static variable, with the states of the two sinks.
pub record Log : Type 0 where
  pub serial_available : Bool
  pub console : Console
  pub serial : Serial

-- The C string that a conversion left in the buffer, if it gave `true`.
unfoldable pub formatted_text : Formatted → Option (List ℕ)
formatted_text (written bytes) = some (c_string bytes)
formatted_text refused = none
formatted_text overrun = none

-- A call of the log, with its argument: `klog_putchar`, `klog_writestring`, `klog_write_uint32`,
-- `klog_write_uint64` or `klog_write_hex32`.
pub data Call : Type 0 where
  put : ℕ → Call
  say : List ℕ → Call
  decimal32 : ℕ → Call
  decimal64 : ℕ → Call
  hex32 : ℕ → Call

module _ (line_status : ℕ → ℕ) where
  unfoldable pub initialize : Log → Status × Log
  initialize s =
      let (available, serial) = Serial.initialize line_status s.serial in
      let t : Log = record s { serial_available = available; serial = serial } in
      if not available then (unavailable, t) else (ok, t)

  unfoldable pub putchar : Log → ℕ → Log
  putchar s character = record s {
    console = Console.putchar s.console character;
    serial = if s.serial_available then Serial.putchar line_status s.serial character else s.serial;
  }

  -- `klog_writestring` of a text that is not `NULL`.
  unfoldable pub writestring : Log → List ℕ → Log
  writestring s text = record s {
    console = Console.writestring s.console text;
    serial = if s.serial_available then Serial.write line_status s.serial text else s.serial;
  }

  -- A number is written if it was formatted.
  unfoldable pub write_formatted : Log → Formatted → Log
  write_formatted s f = elim (formatted_text f) [ some text ↦ writestring s text | none ↦ s ]

  unfoldable pub write_uint32 : Log → ℕ → Log
  write_uint32 s value = write_formatted s (uint32_decimal value false 11)

  unfoldable pub write_uint64 : Log → ℕ → Log
  write_uint64 s value = write_formatted s (uint64_decimal value false 21)

  unfoldable pub write_hex32 : Log → ℕ → Log
  write_hex32 s value = write_formatted s (uint32_hex value false 11)

  unfoldable pub call : Log → Call → Log
  call s (put c) = putchar s c
  call s (say cs) = writestring s cs
  call s (decimal32 v) = write_uint32 s v
  call s (decimal64 v) = write_uint64 s v
  call s (hex32 v) = write_hex32 s v

  -- Calls one after the other.
  unfoldable pub perform : Log → List Call → Log
  perform s [] = s
  perform s (c ∷ cs) = perform (call s c) cs
