-- ===== src/Http/Limiter/RetryAfter.antt =====
-- The text of `Retry-After` is the decimal numeral.
use parity_lab.Prelude.{
  ℕ, zero, suc, ◌/◌, ◌%◌, ◌^◌, ◌<◌, ◌≤◌, String, true, false, ltb, num_eq, ◌≡◌, ◌≢◌, refl, sym, ap,
  ◌∙◌, arith, inl, inr, Bool-cases,
}
use parity_lab.Prelude.Text.{◌<>◌, decimal, digits, digit_text, width_from}
use native.Mathlib.Nat.{pow-suc}
use text.Mathlib.TextLemmas.{append_assoc, append-nil}
use Prim.Native.String.append
use parity_lab.Http.Limiter.{fill_digits, format_retry_after}

fill_digits_zero : (index : ℕ) (buffer : String) → fill_digits index 0 buffer ≡ buffer
unfolding fill_digits
fill_digits_zero zero buffer = refl
fill_digits_zero (suc index) buffer = refl

nonzero : (n : ℕ) → n ≢ 0 → num_eq n 0 ≡ false
nonzero n ne = ground (arith, ne)

no_tens : (n : ℕ) → ltb n 10 ≡ true → n / 10 ≡ 0
no_tens n small = ground (arith, small)

tens : (n : ℕ) → ltb n 10 ≡ false → n / 10 ≢ 0
tens n large e = absurd (ground (arith, large, e))

-- With room for the digits, the buffer holds the numeral.
fill_digits_lem :
    (index f n : ℕ) (buffer : String)
    → n ≤ f
    → n ≢ 0
    → n < 10 ^ index
    → fill_digits index n buffer ≡ digits (width_from f n) n <> buffer
unfolding fill_digits width_from digits
fill_digits_lem zero f n buffer le ne fits = absurd (ne (omega (arith, fits)))
fill_digits_lem (suc index) zero n buffer le ne fits = absurd (ne (omega arith))
fill_digits_lem (suc index) (suc f) n buffer le ne fits = elim (Bool-cases (ltb n 10)) [
  | inl small ↦
      rw (nonzero n ne, small)
        (ap (λ q. fill_digits index q (digit_text (n % 10) <> buffer)) (no_tens n small)
          ∙ fill_digits_zero index (digit_text (n % 10) <> buffer)
          ∙ ap (λ d. d <> buffer) (sym (append.nil (digit_text (n % 10)))))
  | inr large ↦
      rw (nonzero n ne, large)
        (fill_digits_lem index f (n / 10) (digit_text (n % 10) <> buffer) (omega (arith, le, ne))
            (tens n large) (omega (arith, fits, pow-suc 10 index))
          ∙ sym
              (append_assoc (digits (width_from f (n / 10)) (n / 10)) (digit_text (n % 10)) buffer))
]

-- The text of a number of seconds below 10 to the 20 is its decimal numeral.
pub format_retry_after-decimal :
    (seconds : ℕ) → seconds < 10 ^ 20 → format_retry_after seconds ≡ decimal seconds
unfolding format_retry_after decimal
format_retry_after-decimal zero fits = refl
format_retry_after-decimal (suc n) fits =
    let positive : suc n ≢ 0 = λ e. absurd (omega (arith, e)) in
    rw (nonzero (suc n) positive) (
      fill_digits_lem 20 (suc n) (suc n) "" (omega arith) positive fits
      ∙ append-nil (digits (width_from (suc n) (suc n)) (suc n)))
