-- ===== src/Shell/Buffer.antt =====
-- The line buffer of the shell and its strings, src/kernel/shell.c.
use wig_osx.Base.{
  ℕ, zero, suc, ◌+◌, ◌≤◌, ◌<◌, ◌≡◌, ap, ◌∙◌, Bool, true, false, not, ◌&&◌, Option, none, some, List,
  [], ◌∷◌, length, arith, ◌==◌, if◌then◌else◌, get_or,
}
use wig_osx.Base.Text.{no_zeros}

-- `SHELL_BUFFER_SIZE`.
abbrev pub buffer_size : ℕ
buffer_size = 64

-- The file's static variables.
pub record Shell : Type 0 where
  pub buffer : ℕ → ℕ
  pub buffer_length : ℕ

-- A literal as the array that C makes of it.
abbrev pub literal : List ℕ → ℕ → ℕ
literal cs i = get_or cs i 0

-- The loop of `shell_strings_equal` from an index on, with fuel. `none` means that the fuel ran out.
unfoldable pub compare_from : ℕ → (ℕ → ℕ) → (ℕ → ℕ) → ℕ → Option Bool
compare_from zero left right index = none
compare_from (suc fuel) left right index = elim (not (left index == 0) && not (right index == 0)) [
  | false ↦ some (left index == 0 && right index == 0)
  | true ↦ elim (left index == right index) [
    | false ↦ some false
    | true ↦ compare_from fuel left right (suc index)
  ]
]

abbrev answer : Option Bool → Bool
answer none = false
answer (some b) = b

-- `shell_strings_equal` of the buffer and a literal that is shorter than the buffer.
unfoldable pub strings_equal : (ℕ → ℕ) → (ℕ → ℕ) → Bool
strings_equal left right = answer (compare_from buffer_size left right 0)

unfoldable pub command_is_empty : (ℕ → ℕ) → Bool
command_is_empty command = command 0 == 0

-- The C string of an array from an index on, at most so many characters.
unfoldable pub string_at : ℕ → (ℕ → ℕ) → ℕ → List ℕ
string_at zero a i = []
string_at (suc n) a i = if a i == 0 then [] else a i ∷ string_at n a (suc i)

-- The command that the buffer holds.
abbrev pub command_text : (ℕ → ℕ) → List ℕ
command_text buffer = string_at buffer_size buffer 0

unfoldable pub same_text : List ℕ → List ℕ → Bool
same_text [] [] = true
same_text [] (d ∷ ds) = false
same_text (c ∷ cs) [] = false
same_text (c ∷ cs) (d ∷ ds) = c == d && same_text cs ds

compare_from_lem :
    (fuel : ℕ) (left right : ℕ → ℕ) (i : ℕ) (rest : List ℕ)
    → ((k : ℕ) → right (i + k) ≡ get_or rest k 0)
    → no_zeros rest ≡ true
    → length rest < fuel
    → compare_from fuel left right i ≡ some (same_text (string_at fuel left i) rest)
unfolding compare_from string_at same_text no_zeros
compare_from_lem zero left right i rest e z h = absurd (omega (arith, h))
compare_from_lem (suc fuel) left right i [] e z h =
    ground (arith, e 0, ap right {x = i + 0} {y = i})
compare_from_lem (suc fuel) left right i (c ∷ cs) e z h =
    let next =
      compare_from_lem fuel left right (suc i) cs
        (λ k. ap right {y = i + suc k} (omega arith) ∙ e (suc k)) in
    ground (arith, e 0, ap right {x = i + 0} {y = i}, next, z, h)

-- For any array, and a text of at most 63 characters without a terminator in it: the loop of `shell_strings_equal`
-- ends within 64 rounds, and its answer is whether the C string in the array is that text.
pub strings_equal_lem :
    (left : ℕ → ℕ) (cs : List ℕ)
    → no_zeros cs ≡ true
    → length cs ≤ 63
    → (compare_from buffer_size left (literal cs) 0 ≡ some (same_text (command_text left) cs))
      × (strings_equal left (literal cs) ≡ same_text (command_text left) cs)
unfolding strings_equal
strings_equal_lem left cs z h =
    let e =
      compare_from_lem 64 left (literal cs) 0 cs (λ k. ap (λ j. get_or cs j 0) (omega arith)) z
        (omega (arith, h)) in
    (e, ap answer e)
