-- ===== src/Prelude/Text/Decimal.antt =====
-- Decimal numerals name one number each.
use Prim.Native.Nat.{ℕ, zero, suc, ◌+◌, ◌-◌, ◌*◌, ◌/◌, ◌%◌, ◌^◌, ◌<◌, ◌≤◌}
use Prim.Native.Char.{code}
use Prim.Native.String.{String}
use Prim.Native.String.append
use mathlib.Core.Path.{◌≡◌, refl, sym, ap, ◌∙◌}
use mathlib.Core.Bool.{true, ◌&&◌}
use mathlib.Core.Option.{Option, none, some}
use mathlib.Core.Logic.{inl, inr}
use native.Mathlib.Nat.{pow-suc}
use native.Mathlib.Omega.{arith}
use text.Mathlib.TextLemmas.{append_assoc, append-nil}
use parity_lab.Prelude.Tests.{
  leb, ltb, num_eq, num_eq_iff, passes_below, passes_below_at, Bool-cases, if◌then◌else◌,
}
use parity_lab.Prelude.Text.{◌<>◌, digit_char, digit_text, digits, width_from, padded, decimal}

-- the number that a text of digits stands for, after the digits of `n`
unfoldable pub digits_value : ℕ → String → Option ℕ
digits_value n String.[] = some n
digits_value n (String.◌∷◌ c s) =
    let rest = digits_value (n * 10 + (code c - b'0')) s in
    if leb b'0' (code c) && leb (code c) b'9' then rest else none

code-digit_char : (d : ℕ) → d < 10 → code (digit_char d) ≡ b'0' + d
code-digit_char d h =
    (num_eq_iff _ _).0
      (passes_below_at 10 (λ n. num_eq (code (digit_char n)) (b'0' + n)) d reads_every_digit h)
  where
    reads_every_digit : passes_below 10 (λ n. num_eq (code (digit_char n)) (b'0' + n)) ≡ true
    reads_every_digit = unfold passes_below digit_char in refl

digits_value-digit_text :
    (n d : ℕ) (t : String)
    → d < 10
    → digits_value n (digit_text d <> t) ≡ digits_value (n * 10 + d) t
unfolding digits_value
digits_value-digit_text n d t h =
    ap (digits_value n)
      (append.cons (digit_char d) String.[] t ∙ ap (String.◌∷◌ (digit_char d)) (append.nil t))
    ∙ rw (code-digit_char d h) (ground (arith, ap (λ x. digits_value x t) (digit_sub n d)))
  where
    digit_sub : (n d : ℕ) → n * 10 + (b'0' + d - b'0') ≡ n * 10 + d
    digit_sub n d = omega arith

-- Reading back the last `w` digits of a number below `10 ^ w`.
digits_value-digits :
    (w n acc : ℕ) (t : String)
    → n < 10 ^ w
    → digits_value acc (digits w n <> t) ≡ digits_value (acc * 10 ^ w + n) t
unfolding digits
digits_value-digits zero n acc t h =
    ap (digits_value acc) (append.nil t) ∙ ap (λ x. digits_value x t) (omega arith)
digits_value-digits (suc w) n acc t h =
    ap (digits_value acc) (append_assoc (digits w (n / 10)) (digit_text (n % 10)) t)
    ∙ digits_value-digits w (n / 10) acc (digit_text (n % 10) <> t) (omega (arith, pow-suc 10 w))
    ∙ digits_value-digit_text (acc * 10 ^ w + n / 10) (n % 10) t (omega arith)
    ∙ ap (λ x. digits_value x t)
        (omega (arith, pow-suc 10 w, ap (λ (x : ℕ). acc * x) (pow-suc 10 w)))

lt-pow_width : (f n : ℕ) → n ≤ f → n < 10 ^ width_from f n
unfolding width_from
lt-pow_width zero n h = omega arith
lt-pow_width (suc f) n h =
    ground (arith, lt-pow_width f (n / 10) (omega arith), pow-suc 10 (width_from f (n / 10)))

lt-pow_of_lt : (n w d : ℕ) → n < 10 ^ d → d < w → n < 10 ^ w
lt-pow_of_lt n zero d h lt = elim lt [ ]
lt-pow_of_lt n (suc w) d h lt = elim (Bool-cases (num_eq d w)) [
  | inl same ↦ omega (arith, pow-suc 10 w, ap (λ (x : ℕ). 10 ^ x) ((num_eq_iff d w).0 same))
  | inr other ↦ omega (arith, pow-suc 10 w, lt-pow_of_lt n w d h (ground arith))
]

digits_value-digits_all : (w n : ℕ) → n < 10 ^ w → digits_value 0 (digits w n) ≡ some n
unfolding digits_value
digits_value-digits_all w n h =
    ap (digits_value 0) (sym (append-nil (digits w n)))
    ∙ digits_value-digits w n 0 String.[] h
    ∙ ap some (omega arith)

digits_value-padded : (w n : ℕ) → digits_value 0 (padded w n) ≡ some n
unfolding padded
digits_value-padded w n = elim (Bool-cases (ltb (width_from n n) w)) [
  | inl short ↦ rw short (
      digits_value-digits_all w n
        (lt-pow_of_lt n w (width_from n n) (lt-pow_width n n (omega arith)) (ground arith)))
  | inr long ↦ rw long (digits_value-digits_all (width_from n n) n (lt-pow_width n n (omega arith)))
]

-- A number is read back from its numeral.
pub digits_value-decimal : (n : ℕ) → digits_value 0 (decimal n) ≡ some n
unfolding decimal
digits_value-decimal n = digits_value-digits_all (width_from n n) n (lt-pow_width n n (omega arith))

-- Two numbers that are printed alike are equal.
pub padded-injective : (w m n : ℕ) → padded w m ≡ padded w n → m ≡ n
padded-injective w m n e =
    same (sym (digits_value-padded w m) ∙ ap (digits_value 0) e ∙ digits_value-padded w n)
  where
    same : some m ≡ some n → m ≡ n
    same h = cc
