-- ===== src/Http/Limiter/Guesses.antt =====
-- The limiter over logins that fail: each is tested and then counted.
use parity_lab.Prelude.{
  ◌+◌, ◌-◌, ◌*◌, ◌<◌, ◌≤◌, String, true, false, [], ◌∷◌, none, some, length, ◌==◌, string_eq, ◌≡◌,
  refl, sym, ap, subst, arith, Bool-cases, inl, inr,
}
use parity_lab.Prelude.Table.{Table, lookup, delete, lookup-delete}
use parity_lab.Domain.{Time, minute}
use parity_lab.Http.Limiter.{
  LoginBucket, LoginLimiter, max_login_buckets, limited, limited_by, maintain, format_retry_after,
}
use parity_lab.Http.Limiter as Limiter
use parity_lab.Http.Limiter.Throttle.{HasRoom, maintain-IsKept, failure-first, failure-again}

length-delete :
    (key : String) (buckets : Table String LoginBucket)
    → length (delete key buckets) ≤ length buckets
unfolding delete
length-delete key [] = omega arith
length-delete key ((other, first) ∷ buckets) = elim (Bool-cases (other == key)) [
  | inl same ↦ rw (same, delete) (omega (arith, length-delete key buckets))
  | inr differs ↦ rw (differs, delete) (omega (arith, length-delete key buckets))
]

-- a key with a bucket in the limiter, which has no more buckets than it may have
pub record Holds (key : String) (bucket : LoginBucket) (l : LoginLimiter) : Type 0 where
  pub found : lookup key l.buckets ≡ some bucket
  pub few : length l.buckets < max_login_buckets

-- a test of a key whose bucket is not full passes and keeps the bucket
pub limited-running :
    (t : Time) (key : String) (bucket : LoginBucket) (l : LoginLimiter)
    → Holds key bucket l
    → t < bucket.reset_at
    → bucket.failures < 8
    → ((limited t key l).0 ≡ (false, 0)) × Holds key bucket (limited t key l).1
unfolding limited
limited-running t key bucket l h runs below =
    let k = maintain-IsKept t key l h.few in
    let is : limited t key l ≡ ((false, 0), maintain t l) =
      rw (k.runs bucket h.found runs, limited) (ground (arith, runs, below)) in
    (
      ap (λ out. out.0) is,
      subst (λ m. Holds key bucket m) (sym (ap (λ out. out.1) is))
          (record { found = k.runs bucket h.found runs; few = omega (arith, k.fewer, h.few) }),
    )

-- a test of a key without a bucket passes and leaves the key without one
pub limited-missing :
    (t : Time) (key : String) (l : LoginLimiter)
    → length l.buckets < max_login_buckets
    → lookup key l.buckets ≡ none
    → ((limited t key l).0 ≡ (false, 0))
      × (lookup key (limited t key l).1.buckets ≡ none)
      × (length (limited t key l).1.buckets ≤ length l.buckets)
unfolding limited
limited-missing t key l few h =
    let k = maintain-IsKept t key l few in
    rw (k.missing h, limited)
      (
        refl,
        ground (arith, lookup-delete key key (maintain t l).buckets),
        omega (arith, length-delete key (maintain t l).buckets, k.fewer),
      )

-- the limiter after a failed login
abbrev pub failed : Time → String → LoginLimiter → LoginLimiter
failed t key l = Limiter.failure t key (limited t key l).1

pub failed-first :
    (t : Time) (key : String) (l : LoginLimiter)
    → HasRoom l
    → lookup key l.buckets ≡ none
    → Holds key (record { failures = 1; reset_at = t + 5 * minute }) (failed t key l)
failed-first t key l room h =
    let (passes, missing, fewer) = limited-missing t key l (omega (arith, room)) h in
    let (found, few) =
      failure-first t key (limited t key l).1 (omega (arith, room, fewer)) missing in
    record { found = found; few = omega (arith, few, fewer, room) }

pub failed-again :
    (t : Time) (key : String) (bucket : LoginBucket) (l : LoginLimiter)
    → Holds key bucket l
    → t < bucket.reset_at
    → bucket.failures < 8
    → Holds key (record bucket { failures = bucket.failures + 1 }) (failed t key l)
failed-again t key bucket l h runs below =
    let kept = (limited-running t key bucket l h runs below).1 in
    let (found, few) = failure-again t key bucket (limited t key l).1 kept.few kept.found runs in
    record { found = found; few = omega (arith, few, kept.few) }

-- a test of a key whose bucket is full
pub limited-full :
    (t : Time) (key : String) (bucket : LoginBucket) (l : LoginLimiter)
    → Holds key bucket l
    → t < bucket.reset_at
    → bucket.failures ≡ 8
    → (limited t key l).0 ≡ (true, bucket.reset_at - t)
unfolding limited
limited-full t key bucket l h runs full =
    let k = maintain-IsKept t key l h.few in
    rw (k.runs bucket h.found runs, limited) (ground (arith, runs, full))
