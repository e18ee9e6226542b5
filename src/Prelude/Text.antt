-- ===== src/Prelude/Text.antt =====
-- Text: concatenation, and what `fmt`, `strings` and `strconv` do with numbers in it.
pub mod Decimal
pub mod Split
pub mod Numerals
pub mod Trimming
use Prim.Native.Nat.{ℕ, zero, suc, ◌/◌, ◌%◌}
use Prim.Native.Char.{Char}
use Prim.Native.String.{String}
use mathlib.Core.Path.{◌≡◌, refl}
use parity_lab.Prelude.Tests.{ltb, num_eq, if◌then◌else◌}

infixr 65 ◌<>◌
abbrev pub ◌<>◌ : String → String → String
s <> t = Prim.Native.String.◌++◌ s t

-- one decimal digit
unfoldable pub digit_char : ℕ → Char
digit_char d =
    if num_eq d 0
    then "0"
    else if num_eq d 1
    then "1"
    else if num_eq d 2
    then "2"
    else if num_eq d 3
    then "3"
    else if num_eq d 4
    then "4"
    else if num_eq d 5
    then "5"
    else if num_eq d 6
    then "6"
    else if num_eq d 7
    then "7"
    else if num_eq d 8
    then "8"
    else "9"

abbrev pub digit_text : ℕ → String
digit_text d = String.◌∷◌ (digit_char d) String.[]

-- `digits w n`: the last `w` decimal digits of `n`
unfoldable pub digits : ℕ → ℕ → String
digits zero n = ""
digits (suc w) n = digits w (n / 10) <> digit_text (n % 10)

-- the number of decimal digits, with fuel
unfoldable pub width_from : ℕ → ℕ → ℕ
width_from zero n = 1
width_from (suc f) n = let rest = suc (width_from f (n / 10)) in if ltb n 10 then 1 else rest

-- `%d`
unfoldable pub decimal : ℕ → String
unfolding digits width_from digit_char
decimal n = digits (width_from n n) n

-- `%0wd`
unfoldable pub padded : ℕ → ℕ → String
unfolding digits width_from digit_char
padded w n = let d = width_from n n in if ltb d w then digits w n else digits d n

padded_run : padded 6 4 <> "/" <> padded 2 123 <> "/" <> decimal 4200 ≡ "000004/123/4200"
unfolding padded decimal
padded_run = refl
