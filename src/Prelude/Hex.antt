-- ===== src/Prelude/Hex.antt =====
-- `encoding/hex`: two lower-case digits for a byte; `DecodeString` takes either case, and fails
-- on any other character and on an odd length.
use Prim.Native.Char.{Char, code}
use Prim.Native.String.{String, count}
use Prim.Native.String.count
use Prim.Native.Nat.{ℕ, ◌+◌, ◌-◌, ◌*◌, ◌/◌, ◌%◌, ◌<◌}
use mathlib.Core.Path.{◌≡◌, refl, ap, sym, ◌∙◌}
use mathlib.Core.Bool.{Bool, true, false, not, ◌&&◌}
use mathlib.Core.Option.{Option, none, some}
use mathlib.Core.List.{[], ◌∷◌}
use native.Mathlib.Omega.{arith}
use parity_lab.Prelude.Tests.{Bytes, passes_below, passes_below_at, leb, num_eq, if◌then◌else◌}
use parity_lab.Prelude.Text.Split.{contains, is_hex, every}
use parity_lab.Prelude.Lists.{All, length}

-- the digits `0` to `9` and `a` to `f`
unfoldable pub hex_digit : ℕ → Char
hex_digit d =
    if num_eq d 0
    then "0"
    else if num_eq d 1
    then "1"
    else if num_eq d 2
    then "2"
    else if num_eq d 3
    then "3"
    else if num_eq d 4
    then "4"
    else if num_eq d 5
    then "5"
    else if num_eq d 6
    then "6"
    else if num_eq d 7
    then "7"
    else if num_eq d 8
    then "8"
    else if num_eq d 9
    then "9"
    else if num_eq d 10
    then "a"
    else if num_eq d 11
    then "b"
    else if num_eq d 12
    then "c"
    else if num_eq d 13
    then "d"
    else if num_eq d 14
    then "e"
    else "f"

unfoldable pub hex_encode : Bytes → String
unfolding hex_digit
hex_encode [] = String.[]
hex_encode (b ∷ bs) =
    String.◌∷◌ (hex_digit (b / 16)) (String.◌∷◌ (hex_digit (b % 16)) (hex_encode bs))

hex_value : ℕ → Option ℕ
hex_value c =
    if leb b'0' c && leb c b'9'
    then some (c - b'0')
    else if leb b'a' c && leb c b'f'
    then some (c - b'a' + 10)
    else if leb b'A' c && leb c b'F'
    then some (c - b'A' + 10)
    else none

-- what the digits of one byte put before the bytes that follow
abbrev byte_before : Option ℕ → Option ℕ → Option Bytes → Option Bytes
byte_before (some h) (some l) (some bs) = some ((h * 16 + l) ∷ bs)
byte_before (some h) (some l) none = none
byte_before (some h) none r = none
byte_before none l r = none

unfoldable pub hex_decode : String → Option Bytes
unfolding hex_value
hex_decode String.[] = some []
hex_decode (String.◌∷◌ c String.[]) = none
hex_decode (String.◌∷◌ c (String.◌∷◌ d s)) =
    byte_before (hex_value (code c)) (hex_value (code d)) (hex_decode s)

abbrev is_some_of : ℕ → Option ℕ → Bool
is_some_of d none = false
is_some_of d (some v) = num_eq v d

reads_some : (d : ℕ) (o : Option ℕ) → is_some_of d o ≡ true → o ≡ some d
reads_some d o h = ground arith

abbrev reads_digit : ℕ → Bool
reads_digit d = is_some_of d (hex_value (code (hex_digit d)))

reads_every_digit : passes_below 16 reads_digit ≡ true
unfolding passes_below hex_value hex_digit
reads_every_digit = refl

hex_value-hex_digit : (d : ℕ) → d < 16 → hex_value (code (hex_digit d)) ≡ some d
hex_value-hex_digit d h =
    reads_some d (hex_value (code (hex_digit d)))
      (passes_below_at 16 reads_digit d reads_every_digit h)

pub hex_decode-hex_encode :
    (bs : Bytes) → All (λ b. b < 256) bs → hex_decode (hex_encode bs) ≡ some bs
unfolding hex_decode hex_encode
hex_decode-hex_encode [] h = refl
hex_decode-hex_encode (b ∷ bs) h =
    rw
      (
        hex_value-hex_digit (b / 16) (omega arith),
        hex_value-hex_digit (b % 16) (omega arith),
        hex_decode-hex_encode bs h.1,
      )
      (ap (λ n. some (n ∷ bs)) (omega arith))

pub count-hex_encode : (bs : Bytes) → count (hex_encode bs) ≡ length bs + length bs
unfolding hex_encode
count-hex_encode [] = refl
count-hex_encode (b ∷ bs) = omega (
  arith,
  count.cons (hex_digit (b / 16)) (String.◌∷◌ (hex_digit (b % 16)) (hex_encode bs)),
  count.cons (hex_digit (b % 16)) (hex_encode bs),
  count-hex_encode bs,
)

pub hex_encode-injective :
    (s t : Bytes)
    → All (λ b. b < 256) s
    → All (λ b. b < 256) t
    → hex_encode s ≡ hex_encode t
    → s ≡ t
hex_encode-injective s t hs ht e =
    same (sym (hex_decode-hex_encode s hs) ∙ ap hex_decode e ∙ hex_decode-hex_encode t ht)
  where
    same : some s ≡ some t → s ≡ t
    same h = cc

digit_not : (d : ℕ) → d < 16 → not (num_eq (code (hex_digit d)) b'$') ≡ true
digit_not d h = passes_below_at 16 (λ n. not (num_eq (code (hex_digit n)) b'$')) d every_digit h
  where
    every_digit : passes_below 16 (λ n. not (num_eq (code (hex_digit n)) b'$')) ≡ true
    every_digit = unfold passes_below hex_digit in refl

-- The hexadecimal text of bytes has no `$`.
pub contains-hex_encode :
    (bs : Bytes) → All (λ b. b < 256) bs → contains b'$' (hex_encode bs) ≡ false
unfolding contains hex_encode
contains-hex_encode [] h = refl
contains-hex_encode (b ∷ bs) h = ground (
  arith,
  digit_not (b / 16) (omega arith),
  digit_not (b % 16) (omega arith),
  contains-hex_encode bs h.1,
)

pub digit_is_hex : (d : ℕ) → d < 16 → is_hex (hex_digit d) ≡ true
digit_is_hex d h = passes_below_at 16 (λ n. is_hex (hex_digit n)) d every_digit h
  where
    every_digit : passes_below 16 (λ n. is_hex (hex_digit n)) ≡ true
    every_digit = unfold passes_below hex_digit in refl

pub hex_encode-is_hex : (bs : Bytes) → All (λ b. b < 256) bs → every is_hex (hex_encode bs) ≡ true
unfolding every hex_encode
hex_encode-is_hex [] h = refl
hex_encode-is_hex (b ∷ bs) h =
    rw (digit_is_hex (b / 16) (omega arith), digit_is_hex (b % 16) (omega arith))
      (hex_encode-is_hex bs h.1)
