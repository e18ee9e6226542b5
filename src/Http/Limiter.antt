-- ===== src/Http/Limiter.antt =====
-- httpapi/auth_routes.go: the limiter of failed logins, and the text of `Retry-After`. A loop that takes
-- some key of the map takes the first. `now` is the clock; the counter of operations wraps around.
pub mod Throttle
pub mod Guesses
pub mod RetryAfter
use Prim.Native.Nat.{◌^◌, ◌%◌}
use parity_lab.Prelude.{
  ℕ, zero, suc, ◌+◌, ◌-◌, ◌*◌, ◌/◌, String, Bool, true, false, List, [], ◌∷◌, Option, none, some,
  ltb, leb, num_eq, length, keep, ◌==◌, string_eq, if◌then◌else◌, ◌&&◌, ◌||◌, not,
}
use parity_lab.Prelude.Text.{◌<>◌, digit_text}
use parity_lab.Prelude.Table.{Table, lookup, insert, delete, get_or}
use parity_lab.Domain.{Time, Duration, minute}

pub record LoginBucket : Type 0 where
  pub failures : ℕ
  pub reset_at : Time

pub record LoginLimiter : Type 0 where
  pub buckets : Table String LoginBucket
  pub ops : ℕ

abbrev pub max_login_buckets : ℕ
max_login_buckets = 4096

unfoldable pub new_login_limiter : LoginLimiter
new_login_limiter = record { buckets = []; ops = 0 }

abbrev pub is_running : Time → String × LoginBucket → Bool
is_running now (key, bucket) = ltb now bucket.reset_at

-- the second loop of `maintainLocked`
unfoldable pub evict : Table String LoginBucket → Table String LoginBucket
evict [] = []
evict (bucket ∷ buckets) = elim (leb max_login_buckets (length (bucket ∷ buckets))) [
  | true ↦ evict buckets
  | false ↦ bucket ∷ buckets
]

unfoldable pub maintain : Time → LoginLimiter → LoginLimiter
unfolding evict
maintain now l =
    let ops = (l.ops + 1) % 2 ^ 64 in
    if not (num_eq (ops % 64) 0) && ltb (length l.buckets) max_login_buckets
    then record l { ops = ops }
    else record { buckets = evict (keep (is_running now) l.buckets); ops = ops }

-- `limited` with the bucket that was found
abbrev pub limited_by :
    Time → String → Option LoginBucket → LoginLimiter → (Bool × Duration) × LoginLimiter
limited_by now key none l = ((false, 0), record l { buckets = delete key l.buckets })
limited_by now key (some bucket) l =
    if not (ltb now bucket.reset_at)
    then ((false, 0), record l { buckets = delete key l.buckets })
    else if ltb bucket.failures 8
    then ((false, 0), l)
    else ((true, bucket.reset_at - now), l)

unfoldable pub limited : Time → String → LoginLimiter → (Bool × Duration) × LoginLimiter
unfolding maintain
limited now key l = let m = maintain now l in limited_by now key (lookup key m.buckets) m

-- `loginBucket{}`
abbrev pub no_bucket : LoginBucket
no_bucket = record { failures = 0; reset_at = 0 }

abbrev pub counted : Time → LoginBucket → LoginBucket
counted now bucket =
    if not (ltb now bucket.reset_at)
    then record { failures = 1; reset_at = now + 5 * minute }
    else record bucket { failures = bucket.failures + 1 }

unfoldable pub failure : Time → String → LoginLimiter → LoginLimiter
unfolding maintain
failure now key l =
    let m = maintain now l in
    record m { buckets = insert key (counted now (get_or key no_bucket m.buckets)) m.buckets }

unfoldable pub success : String → LoginLimiter → LoginLimiter
success key l = record l { buckets = delete key l.buckets }

-- the loop of `formatRetryAfter`, with the buffer from its index on; 20 places are there
unfoldable pub fill_digits : ℕ → ℕ → String → String
fill_digits zero seconds buffer = buffer
fill_digits (suc index) seconds buffer =
    let rest = fill_digits index (seconds / 10) (digit_text (seconds % 10) <> buffer) in
    if num_eq seconds 0 then buffer else rest

unfoldable pub format_retry_after : ℕ → String
format_retry_after seconds = if num_eq seconds 0 then "0" else fill_digits 20 seconds ""
