-- ===== src/Prelude/Text/Numerals.antt =====
-- Integers in text: `strconv.ParseInt` and `strconv.FormatInt` in base 10, and the characters of
-- numerals in base 10 and 16.
use Prim.Native.Nat.{ℕ, zero, suc, ◌+◌, ◌%◌, ◌/◌, ◌^◌, ◌<◌, ◌≤◌}
use Prim.Native.Char.{Char, code}
use Prim.Native.String.{String, count}
use Prim.Native.String.append
use Prim.Native.String.count
use mathlib.Core.Path.{◌≡◌, refl, sym, ap, ◌∙◌}
use mathlib.Core.Logic.{◌≢◌, inl, inr}
use mathlib.Core.Bool.{Bool, true, false, not, ◌&&◌, ◌||◌}
use mathlib.Core.Option.{Option, none, some}
use native.Mathlib.Omega.{arith}
use text.Mathlib.TextLemmas.{length-append}
use text.Mathlib.TextEquality.{eq_iff}
use parity_lab.Prelude.Tests.{
  ltb, num_eq, ◌==◌, string_eq, if◌then◌else◌, passes_below, passes_below_at, Bool-cases,
}
use parity_lab.Prelude.Text.{◌<>◌, decimal, digits, digit_char, digit_text, width_from}
use parity_lab.Prelude.Text.Decimal.{digits_value, digits_value-decimal}
use parity_lab.Prelude.Text.Split.{
  contains, trim_space, trim_left, trim_right, is_space, is_hex, is_digit, every, every-append,
}

pub data ℤ : Type 0 where
  pos negsuc : ℕ → ℤ

-- a text of digits as a number below a bound
abbrev pub below : ℕ → String → Option ℕ
below bound s = elim (digits_value 0 s) [
  | none ↦ none
  | some n ↦ if s == "" then none else if ltb n bound then some n else none
]

abbrev pub negated : ℕ → ℤ
negated zero = pos 0
negated (suc n) = negsuc n

abbrev pub map_option {ℓ} : {A B : Type ℓ} → (A → B) → Option A → Option B
map_option f none = none
map_option f (some a) = some (f a)

-- `strconv.ParseInt` in base 10 with `suc w` bits
unfoldable pub parse_int : ℕ → String → Option ℤ
unfolding digits_value
parse_int w String.[] = none
parse_int w (String.◌∷◌ c s) =
    if num_eq (code c) b'-'
    then map_option negated (below (2 ^ w + 1) s)
    else if num_eq (code c) b'+'
    then map_option pos (below (2 ^ w) s)
    else map_option pos (below (2 ^ w) (String.◌∷◌ c s))

-- `strconv.FormatInt` in base 10
abbrev pub format_int : ℤ → String
format_int (pos n) = decimal n
format_int (negsuc n) = "-" <> decimal (suc n)

digit_char-is_hex : (d : ℕ) → d < 10 → is_hex (digit_char d) ≡ true
digit_char-is_hex d h = passes_below_at 10 (λ n. is_hex (digit_char n)) d every_digit h
  where
    every_digit : passes_below 10 (λ n. is_hex (digit_char n)) ≡ true
    every_digit = unfold passes_below digit_char in refl

digit_char-is_digit : (d : ℕ) → d < 10 → is_digit (digit_char d) ≡ true
digit_char-is_digit d h = passes_below_at 10 (λ n. is_digit (digit_char n)) d every_digit h
  where
    every_digit : passes_below 10 (λ n. is_digit (digit_char n)) ≡ true
    every_digit = unfold passes_below digit_char in refl

digits-every :
    (p : Char → Bool) (w n : ℕ)
    → ((d : ℕ) → d < 10 → p (digit_char d) ≡ true)
    → every p (digits w n) ≡ true
unfolding digits every
digits-every p zero n h = refl
digits-every p (suc w) n h =
    every-append p (digits w (n / 10)) (digit_text (n % 10)) (digits-every p w (n / 10) h)
      (rw (h (n % 10) (omega arith)) refl)

pub decimal-is_hex : (n : ℕ) → every is_hex (decimal n) ≡ true
unfolding decimal
decimal-is_hex n = digits-every is_hex (width_from n n) n digit_char-is_hex

pub decimal-is_digit : (n : ℕ) → every is_digit (decimal n) ≡ true
unfolding decimal
decimal-is_digit n = digits-every is_digit (width_from n n) n digit_char-is_digit

-- the first character is not `0`
unfoldable pub leads : String → Bool
leads String.[] = false
leads (String.◌∷◌ c s) = not (num_eq (code c) b'0')

leads-append : (s t : String) → leads s ≡ true → leads (s <> t) ≡ true
unfolding leads
leads-append String.[] t h = absurd (ground (arith, h))
leads-append (String.◌∷◌ c s) t h = ap leads (append.cons c s t) ∙ h

digit_char-leads : (d : ℕ) → d < 10 → d ≢ 0 → leads (digit_text d) ≡ true
unfolding leads
digit_char-leads d h ne =
    ground (arith, passes_below_at 10 (λ n. num_eq n 0 || leads (digit_text n)) d every_digit h)
  where
    every_digit : passes_below 10 (λ n. num_eq n 0 || leads (digit_text n)) ≡ true
    every_digit = unfold passes_below digit_char in refl

digits-leads : (f n : ℕ) → n ≤ f → n ≢ 0 → leads (digits (width_from f n) n) ≡ true
unfolding width_from digits
digits-leads zero n h ne = absurd (ne (omega arith))
digits-leads (suc f) n h ne = elim (Bool-cases (ltb n 10)) [
  | inl small ↦
      rw (small, width_from, digits)
        (ap leads (append.nil (digit_text (n % 10)))
          ∙ digit_char-leads (n % 10) (omega arith) (λ e. ne (ground (arith, small, e))))
  | inr large ↦
      rw (large, width_from, digits)
        (leads-append (digits (width_from f (n / 10)) (n / 10)) (digit_text (n % 10))
          (digits-leads f (n / 10) (omega arith) (λ e. absurd (ground (arith, large, e)))))
]

-- the numeral of a positive number begins with another digit than `0`
pub decimal-leads : (n : ℕ) → n ≢ 0 → leads (decimal n) ≡ true
unfolding decimal
decimal-leads n ne = digits-leads n n (omega arith) ne

-- a text of such characters has no other
pub contains-is_hex :
    (k : ℕ) (s : String)
    → ((c : Char) → is_hex c ≡ true → num_eq (code c) k ≡ false)
    → every is_hex s ≡ true
    → contains k s ≡ false
unfolding contains every
contains-is_hex k String.[] differs h = refl
contains-is_hex k (String.◌∷◌ c s) differs h =
    ground (arith, differs c, contains-is_hex k s differs)

abbrev pub is_ink : Char → Bool
is_ink c = not (is_space c)

pub every_weaker :
    (p q : Char → Bool) (s : String)
    → ((c : Char) → p c ≡ true → q c ≡ true)
    → every p s ≡ true
    → every q s ≡ true
unfolding every
every_weaker p q String.[] h e = refl
every_weaker p q (String.◌∷◌ c s) h e = ground (arith, h c, every_weaker p q s h)

both_true : (a b : Bool) → (not a && b) ≡ true → (a ≡ false) × (b ≡ true)
both_true true b h = absurd (ground (arith, h))
both_true false b h = (refl, h)

untouched : (s t : String) (a b : Bool) → b ≡ false → (if a && b then s else t) ≡ t
untouched s t true b h = rw h refl
untouched s t false b h = refl

trim_right_ink : (s : String) → every is_ink s ≡ true → trim_right s ≡ s
unfolding every trim_right
trim_right_ink String.[] h = refl
trim_right_ink (String.◌∷◌ c s) h =
    let (ink, rest) = both_true (is_space c) (every is_ink s) h in
    untouched String.[] (String.◌∷◌ c (trim_right s)) (trim_right s == "") (is_space c) ink
    ∙ ap (String.◌∷◌ c) (trim_right_ink s rest)

trim_left_ink : (s : String) → every is_ink s ≡ true → trim_left s ≡ s
unfolding every trim_left
trim_left_ink String.[] h = refl
trim_left_ink (String.◌∷◌ c s) h =
    let (ink, rest) = both_true (is_space c) (every is_ink s) h in rw ink refl

-- a text without white space is not trimmed
pub trim_space_ink : (s : String) → every is_ink s ≡ true → trim_space s ≡ s
unfolding trim_space
trim_space_ink s h = ap trim_right (trim_left_ink s h) ∙ trim_right_ink s h

width_positive : (f n : ℕ) → (m : ℕ) × (width_from f n ≡ suc m)
unfolding width_from
width_positive zero n = (0, refl)
width_positive (suc f) n = elim (Bool-cases (ltb n 10)) [
  | inl one ↦ (0, rw one refl)
  | inr more ↦ (width_from f (n / 10), rw more refl)
]

digits_nonempty : (m n : ℕ) → digits (suc m) n ≢ ""
unfolding digits
digits_nonempty m n e = absurd (
    omega (
      arith,
      ap count e,
      length-append (digits m (n / 10)) (digit_text (n % 10)),
      count.cons (digit_char (n % 10)) String.[],
    ))

pub decimal_nonempty : (n : ℕ) → decimal n ≢ ""
unfolding decimal
decimal_nonempty n e =
    let (m, wide) = width_positive n n in digits_nonempty m n (ap (λ w. digits w n) (sym wide) ∙ e)

parse_int_unsigned :
    (w : ℕ) (s : String)
    → every is_hex s ≡ true
    → s ≢ ""
    → parse_int w s ≡ map_option pos (below (2 ^ w) s)
unfolding parse_int every
parse_int_unsigned w String.[] h ne = absurd (ne refl)
parse_int_unsigned w (String.◌∷◌ c s) h ne = ground arith

-- A numeral is read back by `ParseInt` if the number fits.
pub parse_int-decimal : (w n : ℕ) → n < 2 ^ w → parse_int w (decimal n) ≡ some (pos n)
parse_int-decimal w n h =
    parse_int_unsigned w (decimal n) (decimal-is_hex n) (decimal_nonempty n)
    ∙ ground (arith, digits_value-decimal n, eq_iff (decimal n) "", decimal_nonempty n)
