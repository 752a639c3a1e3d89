-- ===== src/Shell/Line.antt =====
-- The line that the buffer of the shell holds, and how the operations on the buffer change it.
use wig_osx.Base.{
  ℕ, zero, suc, ◌+◌, ◌-◌, ◌≤◌, ◌<◌, ◌≡◌, refl, ap, ◌∙◌, List, [], ◌∷◌, ◌++◌, length, length-append,
  arith, leb, ◌==◌, if◌then◌else◌, get_or, update,
}
use wig_osx.Base.Loops.{for_range_inv}
use wig_osx.Base.Text.{c_string}
use wig_osx.Shell.Buffer.{Shell, string_at, command_text}
use wig_osx.Shell.{reset_buffer}

-- The buffer holds the line, zeros behind it, and room for a terminator.
pub record Holds (s : Shell) (line : List ℕ) : Type 0 where
  pub buffer_length : s.buffer_length ≡ length line
  pub fits : length line ≤ 63
  pub cells : (i : ℕ) → i < 64 → s.buffer i ≡ get_or line i 0

-- Cells behind the buffer are as they were.
abbrev pub Untouched : Shell → Shell → Type 0
Untouched s t = (i : ℕ) → 64 ≤ i → t.buffer i ≡ s.buffer i

unfoldable pub drop_last : List ℕ → List ℕ
drop_last [] = []
drop_last (c ∷ []) = []
drop_last (c ∷ (d ∷ cs)) = c ∷ drop_last (d ∷ cs)

-- What a character makes of the line.
unfoldable pub edit : ℕ → List ℕ → List ℕ
edit c line =
    if c == 10
    then []
    else if c == 8
    then drop_last line
    else if c == 9
    then line
    else if leb 63 (length line)
    then line
    else line ++ (c ∷ [])

get_or-length : (xs : List ℕ) (i : ℕ) → length xs ≤ i → get_or xs i 0 ≡ 0
get_or-length [] i h = refl
get_or-length (x ∷ xs) zero h = absurd (omega (arith, h))
get_or-length (x ∷ xs) (suc i) h = get_or-length xs i (omega (arith, h))

get_or-append :
    (xs : List ℕ) (c i : ℕ)
    → get_or (xs ++ (c ∷ [])) i 0 ≡ (if length xs == i then c else get_or xs i 0)
get_or-append [] c zero = refl
get_or-append [] c (suc i) = ground arith
get_or-append (x ∷ xs) c zero = ground arith
get_or-append (x ∷ xs) c (suc i) = ground (arith, get_or-append xs c i)

length-drop_last : (xs : List ℕ) → length (drop_last xs) ≡ length xs - 1
unfolding drop_last
length-drop_last [] = refl
length-drop_last (x ∷ []) = refl
length-drop_last (x ∷ (y ∷ xs)) = omega (arith, length-drop_last (y ∷ xs))

get_or-drop_last :
    (xs : List ℕ) (i : ℕ)
    → 0 < length xs
    → get_or (drop_last xs) i 0 ≡ (if length xs - 1 == i then 0 else get_or xs i 0)
unfolding drop_last
get_or-drop_last [] i h = absurd (omega (arith, h))
get_or-drop_last (x ∷ []) zero h = refl
get_or-drop_last (x ∷ []) (suc i) h = ground arith
get_or-drop_last (x ∷ (y ∷ xs)) zero h = ground arith
get_or-drop_last (x ∷ (y ∷ xs)) (suc i) h =
    ground (arith, get_or-drop_last (y ∷ xs) i (omega arith))

pub drop_last-nil : (xs : List ℕ) → length xs ≡ 0 → drop_last xs ≡ xs
unfolding drop_last
drop_last-nil [] h = refl
drop_last-nil (x ∷ xs) h = absurd (omega (arith, h))

string_at_lem :
    (n : ℕ) (a : ℕ → ℕ) (i : ℕ) (rest : List ℕ)
    → ((k : ℕ) → k < n → a (i + k) ≡ get_or rest k 0)
    → length rest < n
    → string_at n a i ≡ c_string rest
unfolding string_at c_string
string_at_lem zero a i rest e h = absurd (omega (arith, h))
string_at_lem (suc n) a i [] e h = ground (arith, e 0, ap a {x = i + 0} {y = i})
string_at_lem (suc n) a i (c ∷ cs) e h =
    let next =
      string_at_lem n a (suc i) cs
        (λ k lt. ap a {y = i + suc k} (omega arith) ∙ e (suc k) (omega (arith, lt))) in
    ground (arith, e 0, ap a {x = i + 0} {y = i}, next, h)

-- The terminator that is stored before a command is executed changes no cell.
pub terminated-command_text :
    (s : Shell) (line : List ℕ)
    → Holds s line
    → command_text (update s.buffer s.buffer_length 0) ≡ c_string line
terminated-command_text s line v =
    string_at_lem 64 (update s.buffer s.buffer_length 0) 0 line
      (λ k lt.
        ap (update s.buffer s.buffer_length 0) {y = k} (omega arith)
        ∙ ground (arith, v.cells k lt, v.buffer_length, get_or-length line k))
      (omega (arith, v.fits))

cleared :
    (s : Shell)
    → let t = reset_buffer s in
      (t.buffer_length ≡ 0) × ((i : ℕ) → i < 64 → t.buffer i ≡ 0) × Untouched s t
unfolding reset_buffer
cleared s =
    let (low, high) =
      for_range_inv (λ k (t : Shell). ((i : ℕ) → i < k → t.buffer i ≡ 0) × Untouched s t)
        (λ i t. record t { buffer = update t.buffer i 0 }) 64 0 64 s refl
        (λ k t le lt h. (λ i b. ground (arith, h.0 i), λ i b. ground (arith, h.1 i)))
        (λ i b. absurd (omega (arith, b)), λ i b. refl) in
    (refl, low, high)

pub reset_buffer-Holds : (s : Shell) → Holds (reset_buffer s) [] × Untouched s (reset_buffer s)
reset_buffer-Holds s =
    let (n, low, high) = cleared s in
    (record { buffer_length = n; fits = omega arith; cells = low }, high)

module _ (s : Shell) (line : List ℕ) (v : Holds s line) where
  pub store-Holds :
      (c : ℕ)
      → length line < 63
      → let t : Shell = record {
        buffer = update s.buffer s.buffer_length c;
        buffer_length = s.buffer_length + 1;
      } in
        Holds t (line ++ (c ∷ [])) × Untouched s t
  store-Holds c room = (
    record {
      buffer_length = omega (arith, v.buffer_length, length-append line (c ∷ []));
      fits = omega (arith, room, length-append line (c ∷ []));
      cells = λ i lt. ground (arith, v.buffer_length, v.cells i lt, get_or-append line c i);
    },
    λ i b. ground (arith, v.buffer_length, room, b),
  )

  pub drop-Holds :
      0 < length line
      → let t : Shell = record {
        buffer = update s.buffer (s.buffer_length - 1) 0;
        buffer_length = s.buffer_length - 1;
      } in
        Holds t (drop_last line) × Untouched s t
  drop-Holds pos = (
    record {
      buffer_length = omega (arith, v.buffer_length, length-drop_last line);
      fits = omega (arith, v.fits, length-drop_last line);
      cells = λ i lt. ground (arith, v.buffer_length, v.cells i lt, get_or-drop_last line i pos);
    },
    λ i b. ground (arith, v.buffer_length, v.fits, pos, b),
  )

  pub terminate-Untouched : Untouched s (record s { buffer = update s.buffer s.buffer_length 0 })
  terminate-Untouched i b = ground (arith, v.buffer_length, v.fits, b)
