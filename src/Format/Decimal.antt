-- ===== src/Format/Decimal.antt =====
-- Decimal text stands for its number, and fits its arrays.
use wig_osx.Base.{
  ℕ, zero, suc, ◌+◌, ◌-◌, ◌*◌, ◌/◌, ◌%◌, ◌^◌, ◌≤◌, ◌<◌, ◌≡◌, refl, ◌∙◌, ap, inl, inr, Bool, true,
  ◌&&◌, ◌||◌, some, List, [], ◌∷◌, ◌++◌, length, length-append, append-nil, append_cons, arith, leb,
  ltb, ltb→lt, ◌==◌, if◌then◌else◌, Bool-cases,
}
use native.Mathlib.Nat.{pow-suc}
use wig_osx.Format.{
  Formatted, refused, written, store_digits, copy_digits, format_decimal, uint32_decimal,
  uint64_decimal,
}

-- The number that a text of digits stands for, after digits that stand for `n`.
unfoldable pub read_decimal : ℕ → List ℕ → ℕ
read_decimal n [] = n
read_decimal n (c ∷ cs) = read_decimal (n * 10 + (c - b'0')) cs

unfoldable pub all_digits : List ℕ → Bool
all_digits [] = true
all_digits (c ∷ cs) = (leb b'0' c && leb c b'9') && all_digits cs

unfoldable pub first_digit : List ℕ → ℕ
first_digit [] = 0
first_digit (c ∷ cs) = c

-- `ds` is the decimal text of `v`: its digits, `0` alone for 0, and no leading zero for any other number.
pub record IsDecimal (v : ℕ) (ds : List ℕ) : Type 0 where
  pub digits : all_digits ds ≡ true
  pub number : read_decimal 0 ds ≡ v
  pub leading : (if v == 0 then length ds == 1 else ltb b'0' (first_digit ds)) ≡ true

-- What the loop stores for `v`: the same, but nothing for 0.
record IsStored (v : ℕ) (ds : List ℕ) : Type 0 where
  digits : all_digits ds ≡ true
  number : read_decimal 0 ds ≡ v
  leading : (v == 0 || ltb b'0' (first_digit ds)) ≡ true

IsStored-IsDecimal : (v : ℕ) (ds : List ℕ) → 0 < v → IsStored v ds → IsDecimal v ds
IsStored-IsDecimal v ds pos s = record {
  digits = s.digits;
  number = s.number;
  leading = ground (arith, s.leading);
}

read_decimal-append :
    (n c : ℕ) (cs : List ℕ) → read_decimal n (cs ++ (c ∷ [])) ≡ read_decimal n cs * 10 + (c - b'0')
unfolding read_decimal
read_decimal-append n c [] = refl
read_decimal-append n c (d ∷ cs) = read_decimal-append (n * 10 + (d - b'0')) c cs

all_digits-append :
    (c : ℕ) (cs : List ℕ)
    → all_digits (cs ++ (c ∷ [])) ≡ (all_digits cs && (leb b'0' c && leb c b'9'))
unfolding all_digits
all_digits-append c [] = ground arith
all_digits-append c (d ∷ cs) = ground (arith, all_digits-append c cs)

leading-append :
    (v c : ℕ) (ds : List ℕ)
    → 0 < v
    → c ≡ b'0' + v % 10
    → (v / 10 == 0) ≡ (length ds == 0)
    → (v / 10 == 0 || ltb b'0' (first_digit ds)) ≡ true
    → b'0' < first_digit (ds ++ (c ∷ []))
unfolding first_digit
leading-append v c [] pos e n h = ground (arith, e, n)
leading-append v c (d ∷ ds) pos e n h = ground (arith, n, h)

IsStored-append :
    (v : ℕ) (ds : List ℕ)
    → 0 < v
    → (v / 10 == 0) ≡ (length ds == 0)
    → IsStored (v / 10) ds
    → IsStored v (ds ++ ((b'0' + v % 10) ∷ []))
IsStored-append v ds pos n d = record {
  digits = ground (arith, all_digits-append (b'0' + v % 10) ds, d.digits);
  number = omega (arith, read_decimal-append 0 (b'0' + v % 10) ds, d.number);
  leading = ground (arith, leading-append v (b'0' + v % 10) ds pos refl n d.leading);
}

IsStored-empty : (v : ℕ) → (0 < v → ⊥) → IsStored v []
unfolding all_digits read_decimal first_digit
IsStored-empty v h = record { digits = refl; number = ground arith; leading = ground (arith, h) }

store_digits-suc :
    (free v : ℕ) (stored : List ℕ)
    → 0 < v
    → store_digits (suc free) v stored ≡ store_digits free (v / 10) ((b'0' + v % 10) ∷ stored)
unfolding store_digits
store_digits-suc free v stored h = ground arith

-- The loop stores the decimal text of a number of at most `free` digits.
store_digits_lem :
    (free v : ℕ) (stored : List ℕ)
    → v < 10 ^ free
    → (ds : List ℕ) × (store_digits free v stored ≡ some (ds ++ stored))
      × IsStored v ds
      × (length ds ≤ free)
      × ((v == 0) ≡ (length ds == 0))
unfolding store_digits
store_digits_lem zero v stored h =
    ([], ground arith, IsStored-empty v (λ p. omega arith), omega arith, ground arith)
store_digits_lem (suc free) v stored h = elim (Bool-cases (ltb 0 v)) [
  | inr e ↦ (
    [],
    ground (arith, e),
    IsStored-empty v (λ p. ground (arith, e)),
    omega arith,
    ground (arith, e),
  )
  | inl e ↦
      let c = b'0' + v % 10 in
      let (ds, s, d, l, n) =
        store_digits_lem free (v / 10) (c ∷ stored) (omega (arith, pow-suc 10 free)) in
      (
        ds ++ (c ∷ []),
        store_digits-suc free v stored (ltb→lt 0 v e) ∙ s ∙ ap some (append_cons ds c stored),
        IsStored-append v ds (ground (arith, e)) n d,
        omega (arith, length-append ds (c ∷ [])),
        ground (arith, e, length-append ds (c ∷ [])),
      )
]

-- What the caller of a decimal conversion gets, when the array has room for so many digits.
abbrev pub IsFormatted : (ℕ → Bool → ℕ → Formatted) → ℕ → ℕ → Type 0
IsFormatted format cells v =
    (ds : List ℕ) × IsDecimal v ds
    × (0 < length ds)
    × (length ds ≤ cells)
    × ((buffer_is_null : Bool) (buffer_size : ℕ)
        → format v buffer_is_null buffer_size ≡ (
            if buffer_is_null || leb buffer_size (length ds)
            then refused
            else written (ds ++ (0 ∷ []))))

zero_lem : (cells : ℕ) → 0 < cells → IsFormatted (format_decimal cells) cells 0
unfolding format_decimal all_digits read_decimal
zero_lem cells h = (
  b'0' ∷ [],
  record { digits = refl; number = refl; leading = refl },
  omega arith,
  omega arith,
  λ b n. ground arith,
)

positive_lem : (cells v : ℕ) → 0 < v → v < 10 ^ cells → IsFormatted (format_decimal cells) cells v
unfolding format_decimal copy_digits
positive_lem cells v p h =
    let (ds, s, d, l, n) = store_digits_lem cells v [] h in
    (
      ds,
      IsStored-IsDecimal v ds p d,
      ground (arith, n),
      l,
      λ b size. rw (s, append-nil ds) (ground (arith, n)),
    )

decimal_lem :
    (cells v : ℕ) → 0 < cells → v < 10 ^ cells → IsFormatted (format_decimal cells) cells v
decimal_lem cells zero p h = zero_lem cells p
decimal_lem cells (suc v) p h = positive_lem cells (suc v) (omega arith) h

-- `kformat_uint32_decimal` on a 32-bit value: there is one text of 1 to 10 digits, which stands for the value in
-- decimal and has no leading zero unless it is `0`. The call never stores past its array of digits. It refuses
-- a `NULL` buffer and one without room for the text and its terminator, and stores the text and the
-- terminator in any other.
pub uint32_decimal_lem : (v : ℕ) → v < 4294967296 → IsFormatted uint32_decimal 10 v
unfolding uint32_decimal
uint32_decimal_lem v h = decimal_lem 10 v (omega arith) (omega arith)

-- `kformat_uint64_decimal` on a 64-bit value: there is one text of 1 to 20 digits, which stands for the value in
-- decimal and has no leading zero unless it is `0`. The call never stores past its array of digits. It refuses
-- a `NULL` buffer and one without room for the text and its terminator, and stores the text and the
-- terminator in any other.
pub uint64_decimal_lem : (v : ℕ) → v < 18446744073709551616 → IsFormatted uint64_decimal 20 v
unfolding uint64_decimal
uint64_decimal_lem v h = decimal_lem 20 v (omega arith) (omega arith)
