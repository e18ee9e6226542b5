-- ===== src/Http/Stream/Cursor.antt =====
-- The cursor of a stream: an event's id is read back by `parseLastEventID`.
use parity_lab.Prelude.{
  ℕ, zero, suc, ◌<◌, ◌^◌, String, true, false, [], ◌∷◌, string_eq, eq_iff, ◌≡◌, refl, arith,
}
use parity_lab.Prelude.Text.{decimal}
use parity_lab.Prelude.Text.Numerals.{
  parse_int-decimal, decimal-is_digit, decimal_nonempty, decimal-leads, leads,
}
use parity_lab.Engine.Service.{success}
use parity_lab.Http.Stream.{parse_last_event_id, has_leading_zero}

leads-has_leading_zero : (s : String) → leads s ≡ true → has_leading_zero s ≡ false
unfolding leads
leads-has_leading_zero String.[] h = refl
leads-has_leading_zero (String.◌∷◌ c String.[]) h = refl
leads-has_leading_zero (String.◌∷◌ c (String.◌∷◌ d s)) h = ground arith

decimal-has_leading_zero : (n : ℕ) → has_leading_zero (decimal n) ≡ false
unfolding decimal
decimal-has_leading_zero zero = refl
decimal-has_leading_zero (suc n) =
    leads-has_leading_zero (decimal (suc n)) (decimal-leads (suc n) (omega arith))

-- The id of an event is read back as the cursor if it is below 2 to the 31.
pub parse_last_event_id-decimal :
    (n : ℕ) → n < 2 ^ 31 → parse_last_event_id (decimal n ∷ []) ≡ success n
unfolding parse_last_event_id
parse_last_event_id-decimal n h = ground (
  arith,
  eq_iff (decimal n) "",
  decimal_nonempty n,
  decimal-has_leading_zero n,
  decimal-is_digit n,
  parse_int-decimal 31 n h,
)
