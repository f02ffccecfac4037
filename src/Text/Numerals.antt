-- ===== src/Text/Numerals.antt =====
-- `atoi` and `atol`, as the GNU C library has them: `strtol` saturates at the bounds of `long`, and
-- `atoi` keeps the low 32 bits. A `long` is its pattern of 64 bits, an `int` its pattern of 32.
pub mod Decimal
use lidas.Base.{
  ℕ, ◌+◌, ◌-◌, ◌*◌, ◌%◌, ◌^◌, min, Bool, ◌&&◌, ◌||◌, List, [], ◌∷◌, leb, ◌==◌, if◌then◌else◌,
}

abbrev is_space : ℕ → Bool
is_space c = (c == 32) || (leb 9 c && leb c 13)

is_digit : ℕ → Bool
is_digit c = leb 48 c && leb c 57

skip_space : List ℕ → List ℕ
skip_space [] = []
skip_space (c ∷ s) = if is_space c then skip_space s else c ∷ s

-- the value of the digits in front, after `acc`
digits_value : ℕ → List ℕ → ℕ
digits_value acc [] = acc
digits_value acc (c ∷ s) =
    let rest = digits_value (acc * 10 + (c - 48)) s in if is_digit c then rest else acc

abbrev positive : ℕ → ℕ
positive v = min v (2 ^ 63 - 1)

abbrev negative : ℕ → ℕ
negative v = (2 ^ 64 - min v (2 ^ 63)) % 2 ^ 64

from_sign : List ℕ → ℕ
from_sign [] = 0
from_sign (c ∷ s) =
    if c == 45
    then negative (digits_value 0 s)
    else if c == 43
    then positive (digits_value 0 s)
    else positive (digits_value 0 (c ∷ s))

unfoldable pub atol : List ℕ → ℕ
unfolding skip_space from_sign digits_value is_digit
atol s = from_sign (skip_space s)

unfoldable pub atoi : List ℕ → ℕ
unfolding atol
atoi s = atol s % 2 ^ 32
