-- ===== src/Prelude/Integers.antt =====
-- Python's integers, over the native numbers.
use Prim.Native.Nat.{ℕ, zero, suc, ◌+◌, ◌*◌, ◌/◌, ◌%◌, ◌<◌}
use Prim.Native.Char.{Char, code}
use Prim.Native.String.{String}
use mathlib.Core.Bool.{Bool, true, false, ◌&&◌}
use mathlib.Core.Option.{Option, none, some, map as map_option}
use mathlib.Core.Path.{◌≡◌, refl}
use pz_server.Prelude.Tests.{ltb, ◌==◌, if◌then◌else◌}
use pz_server.Prelude.Text.{strip}

-- `negsuc n` is `-(n + 1)`.
pub data ℤ : Type 0 where
  pos negsuc : ℕ → ℤ

-- `-n`
abbrev pub negative : ℕ → ℤ
negative zero = pos zero
negative (suc n) = negsuc n

-- `i == n`
abbrev pub equals : ℤ → ℕ → Bool
equals (pos m) n = m == n
equals (negsuc m) n = false

-- `i < n`
abbrev pub is_below : ℤ → ℕ → Bool
is_below (pos m) n = ltb m n
is_below (negsuc m) n = true

-- `n < i`
abbrev pub is_above : ℤ → ℕ → Bool
is_above (pos m) n = ltb n m
is_above (negsuc m) n = false

-- The ASCII digit of a number below 10.
abbrev pub digit : ℕ → Char
digit n =
    if n == 0
    then "0"
    else if n == 1
    then "1"
    else if n == 2
    then "2"
    else if n == 3
    then "3"
    else if n == 4
    then "4"
    else if n == 5
    then "5"
    else if n == 6
    then "6"
    else if n == 7
    then "7"
    else if n == 8
    then "8"
    else "9"

-- `str(n)`, of a number of at most `fuel + 1` digits.
unfoldable pub digits_from : ℕ → ℕ → String → String
digits_from zero n behind = String.◌∷◌ (digit (n % 10)) behind
digits_from (suc fuel) n behind =
    let more = digits_from fuel (n / 10) (String.◌∷◌ (digit (n % 10)) behind) in
    if ltb n 10 then String.◌∷◌ (digit n) behind else more

unfoldable pub show : ℕ → String
unfolding digits_from
show n = digits_from n n ""

-- What Python takes from the Unicode tables: the value of a decimal digit, and `str.lower`.
pub record Unicode : Type 0 where
  pub decimal : ℕ → Option ℕ
  pub lower : String → String

module _ (u : Unicode) where
  -- The digits that `int` reads, with the value so far; the flag says that a digit came last, so
  -- that an underscore or the end may come.
  unfoldable pub read_digits : Bool → ℕ → String → Option ℕ
  read_digits after_digit n String.[] = if after_digit then some n else none
  read_digits after_digit n (String.◌∷◌ c s) =
      let underscored = read_digits false n s in
      if after_digit && code c == 95
      then underscored
      else elim (u.decimal (code c)) [ none ↦ none | some d ↦ read_digits true (n * 10 + d) s ]

  unfoldable pub read_signed : String → Option ℤ
  unfolding read_digits
  read_signed String.[] = none
  read_signed (String.◌∷◌ c s) =
      if code c == 45
      then map_option negative (read_digits false 0 s)
      else if code c == 43
      then map_option pos (read_digits false 0 s)
      else map_option pos (read_digits false 0 (String.◌∷◌ c s))

  -- `int(s)`, with `none` for a ValueError. The limit of 4300 digits is not modelled.
  unfoldable pub int : String → Option ℤ
  unfolding read_signed strip
  int s = read_signed (strip s)

  -- `unicodedata` knows the ASCII digits.
  abbrev pub KnowsDigits : Type 0
  KnowsDigits = (d : ℕ) → d < 10 → u.decimal (48 + d) ≡ some d

show_example : show 3600 ≡ "3600"
unfolding show
show_example = refl
