-- ===== src/Format/Hex.antt =====
-- Hexadecimal text stands for its number.
use wig_osx.Base.{
  ℕ, ◌+◌, ◌-◌, ◌*◌, ◌/◌, ◌%◌, ◌^◌, ◌<◌, ◌≡◌, refl, ◌∙◌, ap, Bool, true, ◌||◌, ◌&&◌, List, [], ◌∷◌,
  ◌++◌, map, length, arith, leb, ltb, ◌==◌, if◌then◌else◌, get_or,
}
use wig_osx.Base.Bits.{bit_and-ones, all_below, all_below_sound}
use wig_osx.Format.{refused, written, hex_digits, hex_digit, uint32_hex}

-- The value of an upper-case hexadecimal digit.
unfoldable pub digit_value : ℕ → ℕ
digit_value c = if leb c b'9' then c - b'0' else c - b'A' + 10

-- The number that a text of hexadecimal digits stands for, after digits that stand for `n`.
unfoldable pub read_hex : ℕ → List ℕ → ℕ
read_hex n [] = n
read_hex n (c ∷ cs) = read_hex (n * 16 + digit_value c) cs

abbrev is_hex_digit : ℕ → Bool
is_hex_digit c = (leb b'0' c && leb c b'9') || (leb b'A' c && leb c b'F')

unfoldable pub all_hex_digits : List ℕ → Bool
all_hex_digits [] = true
all_hex_digits (c ∷ cs) = is_hex_digit c && all_hex_digits cs

row : ℕ → Bool
row d = digit_value (get_or hex_digits d 0) == d && is_hex_digit (get_or hex_digits d 0)

table : all_below 16 row ≡ true
unfolding all_below row digit_value
table = refl

digit_value-hex_digit : (v i : ℕ) → digit_value (hex_digit v i) ≡ v / 2 ^ (28 - i * 4) % 16
unfolding hex_digit row
digit_value-hex_digit v i =
    let d = v / 2 ^ (28 - i * 4) % 16 in
    ap (λ x. digit_value (get_or hex_digits x 0)) (bit_and-ones 4 (v / 2 ^ (28 - i * 4)))
    ∙ ground (arith, all_below_sound 16 row d table)

is_hex_digit-hex_digit : (v i : ℕ) → is_hex_digit (hex_digit v i) ≡ true
unfolding hex_digit row
is_hex_digit-hex_digit v i =
    let d = v / 2 ^ (28 - i * 4) % 16 in
    ap (λ x. is_hex_digit (get_or hex_digits x 0)) (bit_and-ones 4 (v / 2 ^ (28 - i * 4)))
    ∙ ground (arith, all_below_sound 16 row d table)

all_hex_digits-map : (v : ℕ) (is : List ℕ) → all_hex_digits (map (hex_digit v) is) ≡ true
unfolding all_hex_digits
all_hex_digits-map v [] = refl
all_hex_digits-map v (i ∷ is) = rw (is_hex_digit-hex_digit v i) (all_hex_digits-map v is)

-- `kformat_uint32_hex` on a 32-bit value refuses a `NULL` buffer and one of less than 11 bytes. In any other
-- it stores `0x`, eight hexadecimal digits that stand for the value, and the terminator.
pub uint32_hex_lem :
    (v : ℕ)
    → v < 4294967296
    → (ds : List ℕ) × (length ds ≡ 8)
      × (all_hex_digits ds ≡ true)
      × (read_hex 0 ds ≡ v)
      × ((buffer_is_null : Bool) (buffer_size : ℕ)
          → uint32_hex v buffer_is_null buffer_size ≡ (
              if buffer_is_null || ltb buffer_size 11
              then refused
              else written (b'0' ∷ b'x' ∷ (ds ++ (0 ∷ [])))))
unfolding uint32_hex read_hex
uint32_hex_lem v h = (
  map (hex_digit v) (0 ∷ 1 ∷ 2 ∷ 3 ∷ 4 ∷ 5 ∷ 6 ∷ 7 ∷ []),
  refl,
  all_hex_digits-map v (0 ∷ 1 ∷ 2 ∷ 3 ∷ 4 ∷ 5 ∷ 6 ∷ 7 ∷ []),
  omega (
    arith,
    digit_value-hex_digit v 0,
    digit_value-hex_digit v 1,
    digit_value-hex_digit v 2,
    digit_value-hex_digit v 3,
    digit_value-hex_digit v 4,
    digit_value-hex_digit v 5,
    digit_value-hex_digit v 6,
    digit_value-hex_digit v 7,
  ),
  λ b n. refl,
)
