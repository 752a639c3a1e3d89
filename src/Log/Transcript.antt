-- ===== src/Log/Transcript.antt =====
-- A sequence of log calls is one text on the console and on the serial port.
use wig_osx.Base.{ℕ, ◌≡◌, refl, sym, ap, ◌∙◌, List, [], ◌∷◌, ◌++◌, if◌then◌else◌, arith}
use wig_osx.Console
use wig_osx.Console.{Console}
use wig_osx.Log.Render.{Renders, CallFits, call-Renders}
use wig_osx.Log.{Log, Call, call, perform, writestring}
use wig_osx.Serial
use wig_osx.Serial.{Serial}
use wig_osx.Terminal
use wig_osx.Terminal.{Terminal}

-- The texts of the calls, one after the other.
pub data RendersAll : List Call → List ℕ → Type 0 where
  none : RendersAll [] []
  more :
      (c : Call) (cs : List Call) (xs ys zs : List ℕ)
      → Renders c xs
      → RendersAll cs ys
      → zs ≡ xs ++ ys
      → RendersAll (c ∷ cs) zs

abbrev pub AllFit : List Call → Type 0
AllFit [] = Unit {0}
AllFit (c ∷ cs) = CallFits c × AllFit cs

terminal-write-append :
    (t : Terminal) (xs ys : List ℕ)
    → Terminal.write (Terminal.write t xs) ys ≡ Terminal.write t (xs ++ ys)
unfolding Terminal.write
terminal-write-append t [] ys = refl
terminal-write-append t (x ∷ xs) ys = terminal-write-append (Terminal.putchar t x) xs ys

pub console-writestring-append :
    (s : Console) (xs ys : List ℕ)
    → Console.writestring (Console.writestring s xs) ys ≡ Console.writestring s (xs ++ ys)
unfolding Console.writestring
console-writestring-append s xs ys = ground (arith, terminal-write-append s.terminal xs ys)

module _ (line_status : ℕ → ℕ) where
  serial-write-append :
      (s : Serial) (xs ys : List ℕ)
      → Serial.write line_status (Serial.write line_status s xs) ys
        ≡ Serial.write line_status s (xs ++ ys)
  unfolding Serial.write
  serial-write-append s [] ys = refl
  serial-write-append s (x ∷ xs) ys = serial-write-append (Serial.putchar line_status s x) xs ys

  writestring-append :
      (s : Log) (xs ys : List ℕ)
      → writestring line_status (writestring line_status s xs) ys
        ≡ writestring line_status s (xs ++ ys)
  unfolding writestring
  writestring-append s xs ys =
      ground (arith, console-writestring-append s.console xs ys, serial-write-append s.serial xs ys)

  writestring-nil : (s : Log) → writestring line_status s [] ≡ s
  unfolding writestring Console.writestring Terminal.write Serial.write
  writestring-nil s = ground arith

  perform-writestring :
      (s : Log) (cs : List Call)
      → AllFit cs
      → (zs : List ℕ) × RendersAll cs zs × (perform line_status s cs ≡ writestring line_status s zs)
  unfolding perform
  perform-writestring s [] h = ([], none, sym (writestring-nil s))
  perform-writestring s (c ∷ cs) (h, hs) =
      let (xs, r, e) = call-Renders line_status s c h in
      let (ys, rs, es) = perform-writestring (call line_status s c) cs hs in
      (
        xs ++ ys,
        more c cs xs ys (xs ++ ys) r rs refl,
        es ∙ ap (λ t. writestring line_status t ys) e ∙ writestring-append s xs ys,
      )

  -- The calls of the log, with arguments that fit their types, show one text, the texts of the calls one after the
  -- other, numbers included: on the console, and on the serial port if it is there. No call is lost.
  pub perform-RendersAll :
      (s : Log) (cs : List Call)
      → AllFit cs
      → (zs : List ℕ) × RendersAll cs zs
        × ((perform line_status s cs).console ≡ Console.writestring s.console zs)
        × ((perform line_status s cs).serial
            ≡ (if s.serial_available then Serial.write line_status s.serial zs else s.serial))
        × ((perform line_status s cs).serial_available ≡ s.serial_available)
  unfolding writestring
  perform-RendersAll s cs h =
      let (zs, r, e) = perform-writestring s cs h in
      (
        zs,
        r,
        ap (λ (t : Log). t.console) e,
        ap (λ (t : Log). t.serial) e,
        ap (λ (t : Log). t.serial_available) e,
      )
