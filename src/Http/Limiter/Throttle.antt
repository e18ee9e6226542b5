-- ===== src/Http/Limiter/Throttle.antt =====
-- Failed logins are counted, and the eighth within five minutes closes the door until they have passed.
use Prim.Native.Nat.{◌^◌, ◌%◌}
use parity_lab.Prelude.{
  ℕ, ◌+◌, ◌-◌, ◌*◌, ◌<◌, ◌≤◌, String, Bool, true, false, List, [], ◌∷◌, none, some, ltb, leb,
  num_eq, length, keep, ◌==◌, string_eq, if◌then◌else◌, not, ◌≡◌, refl, ap, ◌∙◌, arith, inl, inr,
  Bool-cases, All,
}
use parity_lab.Prelude.Table.{Table, lookup, insert, get_or, lookup-insert_self}
use parity_lab.Domain.{Time, minute}
use parity_lab.Http.Limiter.{
  LoginBucket, LoginLimiter, max_login_buckets, is_running, evict, maintain, limited, limited_by,
  no_bucket, counted, failure,
}

-- there is room for another key
abbrev pub HasRoom : LoginLimiter → Type 0
HasRoom l = length l.buckets + 1 < max_login_buckets

evict-HasRoom :
    (buckets : Table String LoginBucket)
    → length buckets < max_login_buckets
    → evict buckets ≡ buckets
unfolding evict
evict-HasRoom [] h = refl
evict-HasRoom (bucket ∷ buckets) h = rw (few (length (bucket ∷ buckets)) h, evict) refl
  where
    few : (n : ℕ) → n < max_login_buckets → leb max_login_buckets n ≡ false
    few n lt = ground arith

keep-fewer :
    (p : String × LoginBucket → Bool) (buckets : Table String LoginBucket)
    → length (keep p buckets) ≤ length buckets
keep-fewer p [] = omega arith
keep-fewer p (bucket ∷ buckets) = elim (Bool-cases (p bucket)) [
  | inl kept ↦ rw (kept, keep) (omega (arith, keep-fewer p buckets))
  | inr dropped ↦ rw (dropped, keep) (omega (arith, keep-fewer p buckets))
]

-- a running bucket outlives the sweep, and a key without a bucket stays so
lookup-keep_running :
    (now : Time) (key : String) (bucket : LoginBucket) (buckets : Table String LoginBucket)
    → lookup key buckets ≡ some bucket
    → now < bucket.reset_at
    → lookup key (keep (is_running now) buckets) ≡ some bucket
unfolding lookup
lookup-keep_running now key bucket [] h lt = h
lookup-keep_running now key bucket ((other, first) ∷ buckets) h lt =
    elim (Bool-cases (other == key)) [
      | inl same ↦ ground (arith, h, same, lt)
      | inr differs ↦ elim (Bool-cases (is_running now (other, first))) [
        | inl runs ↦ ground (arith, h, differs, runs, lookup-keep_running now key bucket buckets)
        | inr over ↦ ground (arith, h, differs, over, lookup-keep_running now key bucket buckets)
      ]
    ]

lookup-keep-none :
    (now : Time) (key : String) (buckets : Table String LoginBucket)
    → lookup key buckets ≡ none
    → lookup key (keep (is_running now) buckets) ≡ none
unfolding lookup
lookup-keep-none now key [] h = refl
lookup-keep-none now key ((other, first) ∷ buckets) h =
    elim (Bool-cases (is_running now (other, first))) [
      | inl runs ↦ ground (arith, h, runs, lookup-keep-none now key buckets)
      | inr over ↦ ground (arith, h, over, lookup-keep-none now key buckets)
    ]

-- what the upkeep leaves of a key
pub record IsKept (now : Time) (key : String) (l m : LoginLimiter) : Type 0 where
  pub fewer : length m.buckets ≤ length l.buckets
  pub runs :
      (bucket : LoginBucket)
      → lookup key l.buckets ≡ some bucket
      → now < bucket.reset_at
      → lookup key m.buckets ≡ some bucket
  pub missing : lookup key l.buckets ≡ none → lookup key m.buckets ≡ none

pub maintain-IsKept :
    (now : Time) (key : String) (l : LoginLimiter)
    → length l.buckets < max_login_buckets
    → IsKept now key l (maintain now l)
unfolding maintain
maintain-IsKept now key l h = elim (Bool-cases (not (num_eq ((l.ops + 1) % 2 ^ 64 % 64) 0))) [
  | inl early ↦
      rw (maintain, early, below (length l.buckets) h)
        (record { fewer = omega arith; runs = λ bucket e lt. e; missing = λ e. e })
  | inr sweep ↦
      rw
        (
          maintain,
          sweep,
          evict-HasRoom (keep (is_running now) l.buckets)
              (omega (arith, h, keep-fewer (is_running now) l.buckets)),
        )
        (record {
          fewer = keep-fewer (is_running now) l.buckets;
          runs = λ bucket e lt. lookup-keep_running now key bucket l.buckets e lt;
          missing = lookup-keep-none now key l.buckets;
        })
]
  where
    below : (n : ℕ) → n < max_login_buckets → ltb n max_login_buckets ≡ true
    below n lt = ground arith

length-insert :
    (key : String) (bucket : LoginBucket) (buckets : Table String LoginBucket)
    → length (insert key bucket buckets) ≤ length buckets + 1
unfolding insert
length-insert key bucket [] = omega arith
length-insert key bucket ((other, first) ∷ buckets) = elim (Bool-cases (other == key)) [
  | inl same ↦ rw (same, insert) (omega arith)
  | inr differs ↦ rw (differs, insert) (omega (arith, length-insert key bucket buckets))
]

length-insert_known :
    (key : String) (bucket old : LoginBucket) (buckets : Table String LoginBucket)
    → lookup key buckets ≡ some old
    → length (insert key bucket buckets) ≡ length buckets
unfolding insert lookup
length-insert_known key bucket old [] h = cc
length-insert_known key bucket old ((other, first) ∷ buckets) h = elim (Bool-cases (other == key)) [
  | inl same ↦ rw (same, insert) (omega arith)
  | inr differs ↦ ground (arith, h, differs, length-insert_known key bucket old buckets)
]

-- the first failure of a key
pub failure-first :
    (now : Time) (key : String) (l : LoginLimiter)
    → HasRoom l
    → lookup key l.buckets ≡ none
    → (lookup key (failure now key l).buckets
        ≡ some (record { failures = 1; reset_at = now + 5 * minute }))
      × (length (failure now key l).buckets ≤ length l.buckets + 1)
unfolding failure
failure-first now key l room h =
    let m = maintain now l in
    let k = maintain-IsKept now key l (omega (arith, room)) in
    let x = counted now (get_or key no_bucket m.buckets) in
    (
      lookup-insert_self key x m.buckets ∙ ap some (ground (arith, k.missing h)),
      omega (arith, length-insert key x m.buckets, k.fewer),
    )

-- a further one while its bucket runs
pub failure-again :
    (now : Time) (key : String) (bucket : LoginBucket) (l : LoginLimiter)
    → length l.buckets < max_login_buckets
    → lookup key l.buckets ≡ some bucket
    → now < bucket.reset_at
    → (lookup key (failure now key l).buckets
        ≡ some (record bucket { failures = bucket.failures + 1 }))
      × (length (failure now key l).buckets ≤ length l.buckets)
unfolding failure
failure-again now key bucket l room h lt =
    let m = maintain now l in
    let k = maintain-IsKept now key l room in
    let x = counted now (get_or key no_bucket m.buckets) in
    (
      lookup-insert_self key x m.buckets ∙ ap some (ground (arith, lt, k.runs bucket h lt)),
      omega (arith, length-insert_known key x bucket m.buckets (k.runs bucket h lt), k.fewer),
    )

-- the limiter after failures of one key
abbrev pub after_failures : String → List Time → LoginLimiter → LoginLimiter
after_failures key [] l = l
after_failures key (t ∷ ts) l = after_failures key ts (failure t key l)

failures-counted :
    (key : String) (ts : List Time) (bucket : LoginBucket) (l : LoginLimiter)
    → All (λ t. t < bucket.reset_at) ts
    → length l.buckets < max_login_buckets
    → lookup key l.buckets ≡ some bucket
    → (lookup key (after_failures key ts l).buckets
        ≡ some (record bucket { failures = bucket.failures + length ts }))
      × (length (after_failures key ts l).buckets < max_login_buckets)
failures-counted key [] bucket l early room h = (ground (arith, h), room)
failures-counted key (t ∷ ts) bucket l early room h =
    let step = failure-again t key bucket l room h early.0 in
    let rest =
      failures-counted key ts (record bucket { failures = bucket.failures + 1 }) (failure t key l)
        early.1 (omega (arith, step.1, room)) step.0 in
    (ground (arith, rest.0), rest.1)

pub limited_by-running :
    (t : Time) (key : String) (bucket : LoginBucket) (l : LoginLimiter)
    → t < bucket.reset_at
    → (limited_by t key (some bucket) l).0
      ≡ (if leb 8 bucket.failures then (true, bucket.reset_at - t) else (false, 0))
limited_by-running t key bucket l h = ground (arith, h)

-- After failed logins of one key within five minutes of the first one, a further attempt at the key within
-- these minutes is refused exactly if there were eight or more, and the answer to a refused one is
-- the time that is left. The conditions are that the key had no failures before and that fewer than
-- 4095 keys have a bucket.
pub after_failures-limited :
    (key : String) (first t : Time) (ts : List Time) (l : LoginLimiter)
    → HasRoom l
    → lookup key l.buckets ≡ none
    → All (λ s. s < first + 5 * minute) ts
    → t < first + 5 * minute
    → (limited t key (after_failures key (first ∷ ts) l)).0
      ≡ (if leb 8 (1 + length ts) then (true, first + 5 * minute - t) else (false, 0))
unfolding limited
after_failures-limited key first t ts l room h early open_ =
    let opened = failure-first first key l room h in
    let bucket : LoginBucket = record { failures = 1; reset_at = first + 5 * minute } in
    let (found, few) =
      failures-counted key ts bucket (failure first key l) early (omega (arith, room, opened.1))
        opened.0 in
    let s = after_failures key (first ∷ ts) l in
    let last : LoginBucket = record bucket { failures = 1 + length ts } in
    let kept = (maintain-IsKept t key s few).runs last found open_ in
    ap (λ o. (limited_by t key o (maintain t s)).0) kept
    ∙ limited_by-running t key last (maintain t s) open_
