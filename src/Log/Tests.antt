-- ===== src/Log/Tests.antt =====
-- A concrete transcript.
use wig_osx.Base.{ℕ, ◌≡◌, true, false, List, [], ◌∷◌, arith}
use wig_osx.Console
use wig_osx.Log.{Log, Call, put, say, decimal32, hex32, perform}
use wig_osx.Log.Transcript.{RendersAll, perform-RendersAll}
use wig_osx.Serial

abbrev line_status : ℕ → ℕ
line_status n = 0x20

-- A log with a serial port that failed, and a console.
abbrev started : Log
started = record {
  serial_available = true;
  console = record {
    initialized = true;
    terminal = record {
      row = 0;
      column = 0;
      view_start = 0;
      color = 7;
      buffer = λ i. 0;
      writes = [];
    };
  };
  serial = record { initialized = false; reads = 0; writes = [] };
}

abbrev calls : List Call
calls = say (65 ∷ []) ∷ (decimal32 4096 ∷ (put 10 ∷ (hex32 255 ∷ [])))

perform-RendersAll_example :
    (zs : List ℕ) × RendersAll calls zs
    × ((perform line_status started calls).console ≡ Console.writestring started.console zs)
    × ((perform line_status started calls).serial ≡ Serial.write line_status started.serial zs)
    × ((perform line_status started calls).serial_available ≡ true)
perform-RendersAll_example = perform-RendersAll line_status started calls (omega arith)
