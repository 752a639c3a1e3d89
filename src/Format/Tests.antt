-- ===== src/Format/Tests.antt =====
-- Formatting concrete numbers.
use wig_osx.Base.{
  ℕ, ◌≡◌, refl, Bool, true, false, List, [], ◌∷◌, ◌++◌, length, arith, ltb, ◌||◌, if◌then◌else◌,
}
use wig_osx.Format.{Formatted, refused, written, uint32_decimal, uint64_decimal, uint32_hex}
use wig_osx.Format.Decimal.{IsFormatted, uint64_decimal_lem}
use wig_osx.Format.Hex.{read_hex, all_hex_digits, uint32_hex_lem}

uint64_decimal_lem_example : IsFormatted uint64_decimal 20 18446744073709551615
uint64_decimal_lem_example = uint64_decimal_lem 18446744073709551615 (omega arith)

uint32_hex_lem_example :
    (ds : List ℕ) × (length ds ≡ 8)
    × (all_hex_digits ds ≡ true)
    × (read_hex 0 ds ≡ 3735928559)
    × ((buffer_is_null : Bool) (buffer_size : ℕ)
        → uint32_hex 3735928559 buffer_is_null buffer_size ≡ (
            if buffer_is_null || ltb buffer_size 11
            then refused
            else written (b'0' ∷ b'x' ∷ (ds ++ (0 ∷ [])))))
uint32_hex_lem_example = uint32_hex_lem 3735928559 (omega arith)

-- `42` in a buffer of three bytes.
forty_two : uint32_decimal 42 false 3 ≡ written (52 ∷ 50 ∷ 0 ∷ [])
unfolding uint32_decimal wig_osx.Format.format_decimal wig_osx.Format.store_digits
forty_two = refl
