-- ===== src/Prelude/Text.antt =====
-- Texts as lists of bytes, and what the source uses of C's text functions.
use Prim.Native.Char.{code}
use Prim.Native.String.{String}
use Prim.Native.Nat.{ℕ, zero, suc, ◌+◌, ◌-◌, ◌*◌, ◌/◌, ◌%◌}
use mathlib.Core.Bool.{Bool, true, false, ◌&&◌}
use mathlib.Core.List.{List, [], ◌∷◌}
use ssxrver.Prelude.Tests.{if◌then◌else◌, ◌==◌}

-- The bytes of an ASCII literal.
abbrev pub codes : String → List ℕ
codes String.[] = []
codes (String.◌∷◌ c s) = code c ∷ codes s

abbrev pub same : List ℕ → List ℕ → Bool
same [] [] = true
same [] (y ∷ ys) = false
same (x ∷ xs) [] = false
same (x ∷ xs) (y ∷ ys) = x == y && same xs ys

-- `strncmp(start, literal, n) == 0` for the `n` bytes at `start`: a comparison ends at the first NUL.
abbrev pub strncmp_equal : List ℕ → List ℕ → Bool
strncmp_equal [] ys = true
strncmp_equal (x ∷ xs) [] = x == 0
strncmp_equal (x ∷ xs) (y ∷ ys) = x == y && strncmp_equal xs ys

-- What a string made from a `char *` holds: the bytes before the first NUL.
abbrev pub c_str : List ℕ → List ℕ
c_str [] = []
c_str (x ∷ xs) = let rest = c_str xs in if x == 0 then [] else x ∷ rest

-- The value that decimal digits stand for, on top of what stands before them.
abbrev pub value_from : ℕ → List ℕ → ℕ
value_from acc [] = acc
value_from acc (d ∷ ds) = value_from (acc * 10 + (d - 48)) ds

-- `%d` and `%zd` of a number that is not negative, of at most `fuel` digits, in front of `tail`.
abbrev pub decimal_onto : ℕ → ℕ → List ℕ → List ℕ
decimal_onto zero n tail = tail
decimal_onto (suc fuel) n tail =
    let tail' = (48 + n % 10) ∷ tail in
    let more = decimal_onto fuel (n / 10) tail' in if n / 10 == 0 then tail' else more

-- A `size_t` has at most 20 digits.
abbrev pub decimal : ℕ → List ℕ
decimal n = decimal_onto 20 n []
