-- ===== src/Format.antt =====
-- Numbers as text, src/kernel/format.c.
pub mod Decimal
pub mod Hex
mod Tests
use wig_osx.Base.{
  ℕ, zero, suc, ◌+◌, ◌-◌, ◌*◌, ◌/◌, ◌%◌, ◌^◌, Bool, true, false, ◌||◌, Option, none, some, List, [],
  ◌∷◌, ◌++◌, map, length, leb, ltb, ◌==◌, if◌then◌else◌, bit_and, get_or,
}

-- What a call does: it stores past the end of its own array of digits, it gives `false` and leaves the buffer
-- as it was, or it gives `true` and stores these bytes from the start of the buffer on.
pub data Formatted : Type 0 where
  overrun : Formatted
  refused : Formatted
  written : List ℕ → Formatted

-- The loop that stores the digits: `free` is how many cells of the array are left, `stored` its content, the
-- last digit stored first. `none` means a store past its end.
unfoldable pub store_digits : ℕ → ℕ → List ℕ → Option (List ℕ)
store_digits zero value stored = if ltb 0 value then none else some stored
store_digits (suc free) value stored = elim (ltb 0 value) [
  | true ↦ store_digits free (value / 10) ((b'0' + value % 10) ∷ stored)
  | false ↦ some stored
]

-- The digits are copied from the last stored to the first, then the terminator.
copy_digits : ℕ → Option (List ℕ) → Formatted
copy_digits buffer_size none = overrun
copy_digits buffer_size (some stored) =
    if leb buffer_size (length stored) then refused else written (stored ++ (0 ∷ []))

-- `kformat_uint32_decimal` and `kformat_uint64_decimal`, which differ only in the size of the array of digits.
unfoldable pub format_decimal : ℕ → ℕ → Bool → ℕ → Formatted
unfolding copy_digits
format_decimal cells value buffer_is_null buffer_size =
    if buffer_is_null || buffer_size == 0
    then refused
    else if value == 0
    then (if ltb buffer_size 2 then refused else written (b'0' ∷ 0 ∷ []))
    else copy_digits buffer_size (store_digits cells value [])

unfoldable pub uint32_decimal : ℕ → Bool → ℕ → Formatted
uint32_decimal = format_decimal 10

unfoldable pub uint64_decimal : ℕ → Bool → ℕ → Formatted
uint64_decimal = format_decimal 20

-- The 16 characters of `hex_digits`.
abbrev pub hex_digits : List ℕ
hex_digits =
    b'0' ∷ b'1' ∷ b'2' ∷ b'3' ∷ b'4' ∷ b'5' ∷ b'6' ∷ b'7' ∷ b'8' ∷ b'9' ∷ b'A' ∷ b'B' ∷ b'C' ∷ b'D'
    ∷ b'E' ∷ b'F' ∷ []

-- `hex_digits[(value >> (28 - i * 4)) & 0xF]`.
unfoldable pub hex_digit : ℕ → ℕ → ℕ
hex_digit value i = get_or hex_digits (bit_and (value / 2 ^ (28 - i * 4)) 0xF) 0

unfoldable pub uint32_hex : ℕ → Bool → ℕ → Formatted
uint32_hex value buffer_is_null buffer_size =
    if buffer_is_null || ltb buffer_size 11
    then refused
    else written
        (b'0' ∷ b'x' ∷ (map (hex_digit value) (0 ∷ 1 ∷ 2 ∷ 3 ∷ 4 ∷ 5 ∷ 6 ∷ 7 ∷ []) ++ (0 ∷ [])))
