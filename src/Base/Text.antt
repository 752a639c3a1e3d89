-- ===== src/Base/Text.antt =====
-- Text literals as the characters of a C string, and C strings in a buffer.
use Prim.Native.Char.{code}
use Prim.Native.String.{String}
use Prim.Native.Nat.{ℕ}
use mathlib.Core.Path.{◌≡◌, refl}
use mathlib.Core.Bool.{Bool, true, false}
use mathlib.Core.List.{List, [], ◌∷◌, ◌++◌}
use native.Mathlib.Omega.{arith}
use wig_osx.Base.Tests.{◌==◌, if◌then◌else◌}

-- The bytes of a literal before its terminator.
unfoldable pub text : String → List ℕ
text String.[] = []
text (String.◌∷◌ c s) = code c ∷ text s

-- The characters before the first terminator.
unfoldable pub c_string : List ℕ → List ℕ
c_string [] = []
c_string (c ∷ cs) = if c == 0 then [] else c ∷ c_string cs

unfoldable pub no_zeros : List ℕ → Bool
no_zeros [] = true
no_zeros (c ∷ cs) = if c == 0 then false else no_zeros cs

-- A text that holds no terminator is what is read back from a buffer that holds it and a terminator.
pub c_string-append : (cs rest : List ℕ) → no_zeros cs ≡ true → c_string (cs ++ (0 ∷ rest)) ≡ cs
unfolding c_string no_zeros
c_string-append [] rest h = refl
c_string-append (c ∷ cs) rest h = ground (arith, c_string-append cs rest)
