-- ===== src/Gdt/Layout.antt =====
-- A descriptor holds its base, its limit and its flags.
use wig_osx.Base.{
  ℕ, ◌+◌, ◌*◌, ◌/◌, ◌%◌, ◌<◌, ◌≤◌, ◌≡◌, refl, ◌∙◌, ap, ◌⊎◌, inl, inr, arith, ◌==◌, if◌then◌else◌,
  bit_and, bit_or, Bool, true,
}
use wig_osx.Base.Bits.{bit_and-ones, bit_and-high, all_below, all_below_sound}
use wig_osx.Gdt.{GdtEntry, fields, set_entry, initialize, table_pointer}

-- What the processor reads from a descriptor: the base in three parts, the limit of 20 bits in two, and the
-- flags in the high half of a byte.
abbrev pub base_of : GdtEntry → ℕ
base_of e = e.base_low + e.base_middle * 65536 + e.base_high * 16777216

abbrev pub limit_of : GdtEntry → ℕ
limit_of e = e.limit_low + e.granularity % 16 * 65536

abbrev pub flags_of : GdtEntry → ℕ
flags_of e = e.granularity / 16

row : ℕ → Bool
row n = bit_or (n % 16) (n / 16 * 16) == n

table : all_below 256 row ≡ true
unfolding all_below row
table = refl

bit_or-add : (x y : ℕ) → x < 16 → y < 16 → bit_or x (y * 16) ≡ x + y * 16
unfolding row
bit_or-add x y h p =
    let n = x + y * 16 in
    let low : n % 16 ≡ x = omega arith in
    let high : n / 16 ≡ y = omega arith in
    ground
      (arith, all_below_sound 256 row n table, ap bit_or low, ap (bit_or x) (ap (λ z. z * 16) high))

granularity_lem :
    (limit granularity : ℕ)
    → limit < 1048576
    → granularity < 256
    → bit_or (bit_and (limit / 65536) 0x0F) (bit_and granularity 0xF0)
      ≡ limit / 65536 + granularity / 16 * 16
granularity_lem limit granularity h p =
    let low : bit_and (limit / 65536) 0x0F ≡ limit / 65536 =
      omega (arith, bit_and-ones 4 (limit / 65536)) in
    let high : bit_and granularity 0xF0 ≡ granularity / 16 * 16 =
      omega (arith, bit_and-high 4 15 granularity, bit_and-ones 4 (granularity / 16)) in
    rw (low, high) (bit_or-add (limit / 65536) (granularity / 16) (omega arith) (omega arith))

-- `gdt_set_entry` of a 32-bit base, a 20-bit limit and byte-sized access and flags writes a descriptor from which
-- the base, the limit, the access byte and the high half of the flags are read back, and no other descriptor.
pub set_entry_lem :
    (entries : ℕ → GdtEntry) (index base limit access granularity other : ℕ)
    → base < 4294967296
    → limit < 1048576
    → granularity < 256
    → let after = set_entry entries index base limit access granularity in
      (base_of (after index) ≡ base)
      × (limit_of (after index) ≡ limit)
      × ((after index).access ≡ access)
      × (flags_of (after index) ≡ granularity / 16)
      × (after other ≡ (if index == other then after index else entries other))
unfolding set_entry
set_entry_lem entries index base limit access granularity other h p q =
    let f = fields base limit access granularity in
    let there : (if index == index then f else entries index) ≡ f = ground arith in
    let g = granularity_lem limit granularity p q in
    (
      ap base_of there
          ∙ omega (
            arith,
            bit_and-ones 16 base,
            bit_and-ones 8 (base / 65536),
            bit_and-ones 8 (base / 16777216),
          ),
      ap limit_of there ∙ omega (arith, bit_and-ones 16 limit, g),
      ap (λ (e : GdtEntry). e.access) there,
      ap flags_of there ∙ omega (arith, g),
      rw there refl,
    )

index_cases : (i : ℕ) → i < 3 → (i ≡ 0) ⊎ ((i ≡ 1) ⊎ (i ≡ 2))
index_cases i h = ground arith

-- The table that `gdt_initialize` loads, whatever it held: the empty descriptor, then a code (access 0x9A) and a
-- data segment (access 0x92) of ring 0, both with base 0 and the limit 0xFFFFF in pages of 4 KiB (flags 0xC),
-- which is all of the 4 GiB. The bytes of each descriptor lie within the limit that is loaded with the table.
pub initialize-flat :
    (entries : ℕ → GdtEntry) (index address : ℕ)
    → index < 3
    → let e = initialize entries index in
      (base_of e ≡ 0)
      × (limit_of e ≡ (if index == 0 then 0 else 0xFFFFF))
      × (flags_of e ≡ (if index == 0 then 0 else 0xC))
      × (e.access ≡ (if index == 0 then 0 else if index == 1 then 0x9A else 0x92))
      × (index * 8 + 7 ≤ (table_pointer address).limit)
unfolding initialize set_entry table_pointer
initialize-flat entries index address h = elim (index_cases index h) [
  | inl e ↦ rw e (refl, refl, refl, refl, omega arith)
  | inr (inl e) ↦ rw e (refl, refl, refl, refl, omega arith)
  | inr (inr e) ↦ rw e (refl, refl, refl, refl, omega arith)
]
