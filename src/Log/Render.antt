-- ===== src/Log/Render.antt =====
-- What a sequence of log calls shows.
use wig_osx.Base.{
  ℕ, suc, ◌<◌, ◌≡◌, refl, ap, ◌∙◌, Bool, true, false, List, [], ◌∷◌, ◌++◌, length, arith,
}
use wig_osx.Base.Text.{no_zeros, c_string-append}
use wig_osx.Console
use wig_osx.Console.{Console}
use wig_osx.Format.Decimal.{
  IsDecimal, IsFormatted, all_digits, uint32_decimal_lem, uint64_decimal_lem,
}
use wig_osx.Format.Hex.{read_hex, all_hex_digits, uint32_hex_lem}
use wig_osx.Format.{Formatted, written, uint32_decimal, uint64_decimal}
use wig_osx.Log.{
  Log, Call, put, say, decimal32, decimal64, hex32, call, formatted_text, putchar, writestring,
  write_formatted, write_uint32, write_uint64, write_hex32,
}
use wig_osx.Serial
use wig_osx.Serial.{Serial}
use wig_osx.Terminal
use wig_osx.Terminal.{Terminal}

-- The text that a call shows: a number in decimal, or as `0x` and eight hexadecimal digits.
pub data Renders : Call → List ℕ → Type 0 where
  put_text : (c : ℕ) → Renders (put c) (c ∷ [])
  say_text : (cs : List ℕ) → Renders (say cs) cs
  decimal32_text : (v : ℕ) (ds : List ℕ) → IsDecimal v ds → Renders (decimal32 v) ds
  decimal64_text : (v : ℕ) (ds : List ℕ) → IsDecimal v ds → Renders (decimal64 v) ds
  hex32_text :
      (v : ℕ) (ds : List ℕ)
      → length ds ≡ 8
      → all_hex_digits ds ≡ true
      → read_hex 0 ds ≡ v
      → Renders (hex32 v) (b'0' ∷ (b'x' ∷ ds))

-- The arguments fit their C types.
abbrev pub CallFits : Call → Type 0
CallFits (decimal32 v) = v < 4294967296
CallFits (decimal64 v) = v < 18446744073709551616
CallFits (hex32 v) = v < 4294967296
CallFits _ = Unit {0}

module _ (line_status : ℕ → ℕ) where
  putchar-writestring :
      (s : Log) (c : ℕ) → putchar line_status s c ≡ writestring line_status s (c ∷ [])
  unfolding putchar writestring Console.putchar Console.writestring Terminal.write Serial.write
  putchar-writestring s c = refl

  formatted_lem :
      (s : Log) (f : Formatted) (cs : List ℕ)
      → f ≡ written (cs ++ (0 ∷ []))
      → no_zeros cs ≡ true
      → write_formatted line_status s f ≡ writestring line_status s cs
  unfolding write_formatted formatted_text
  formatted_lem s f cs e z =
      ap (write_formatted line_status s) e
      ∙ ap (writestring line_status s) (c_string-append cs [] z)

no_zeros-digits : (ds : List ℕ) → all_digits ds ≡ true → no_zeros ds ≡ true
unfolding all_digits no_zeros
no_zeros-digits [] h = refl
no_zeros-digits (d ∷ ds) h = ground (arith, no_zeros-digits ds, h)

no_zeros-hex : (ds : List ℕ) → all_hex_digits ds ≡ true → no_zeros ds ≡ true
unfolding all_hex_digits no_zeros
no_zeros-hex [] h = refl
no_zeros-hex (d ∷ ds) h = ground (arith, no_zeros-hex ds, h)

-- A conversion into a buffer with a byte to spare.
IsFormatted-fits :
    (format : ℕ → Bool → ℕ → Formatted) (cells v : ℕ)
    → IsFormatted format cells v
    → (ds : List ℕ) × IsDecimal v ds
      × (no_zeros ds ≡ true)
      × (format v false (suc cells) ≡ written (ds ++ (0 ∷ [])))
IsFormatted-fits format cells v (ds, d, pos, le, e) =
    (ds, d, no_zeros-digits ds d.digits, e false (suc cells) ∙ ground (arith, le))

module _ (line_status : ℕ → ℕ) where
  -- Every call shows its text.
  pub call-Renders :
      (s : Log) (c : Call)
      → CallFits c
      → (cs : List ℕ) × Renders c cs × (call line_status s c ≡ writestring line_status s cs)
  unfolding call write_uint32 write_uint64 write_hex32 no_zeros
  call-Renders s (put c) h = (c ∷ [], put_text c, putchar-writestring line_status s c)
  call-Renders s (say cs) h = (cs, say_text cs, refl)
  call-Renders s (decimal32 v) h =
      let (ds, d, z, e) = IsFormatted-fits uint32_decimal 10 v (uint32_decimal_lem v h) in
      (ds, decimal32_text v ds d, formatted_lem line_status s _ ds e z)
  call-Renders s (decimal64 v) h =
      let (ds, d, z, e) = IsFormatted-fits uint64_decimal 20 v (uint64_decimal_lem v h) in
      (ds, decimal64_text v ds d, formatted_lem line_status s _ ds e z)
  call-Renders s (hex32 v) h =
      let (ds, n, d, r, e) = uint32_hex_lem v h in
      (
        b'0' ∷ (b'x' ∷ ds),
        hex32_text v ds n d r,
        formatted_lem line_status s _ (b'0' ∷ (b'x' ∷ ds)) (e false 11) (no_zeros-hex ds d),
      )
