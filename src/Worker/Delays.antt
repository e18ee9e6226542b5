-- ===== src/Worker/Delays.antt =====
-- The intervals and defaults of the worker.
use parity_lab.Prelude.{
  ℕ, zero, suc, ◌*◌, ◌≤◌, ◌<◌, ◌==◌, ltb, leb, String, string_eq, inl, inr, Bool-cases,
  if◌then◌else◌, ◌≡◌, refl, ap, arith, ◌≢◌, eq_iff,
}
use parity_lab.Domain.{second, millisecond, Duration}
use parity_lab.Worker.{Config, new_config, retry_delay, heartbeat_interval}

-- The delay before a retry doubles with every attempt from one second to 32 seconds, where it
-- stays: it is never shorter than a second nor longer than 32.
pub retry_delay-doubles :
    (attempt : ℕ)
    → (second ≤ retry_delay attempt)
      × (retry_delay attempt ≤ 32 * second)
      × (retry_delay (suc attempt) ≡ (
          if ltb attempt 1
          then retry_delay attempt
          else if ltb attempt 6
          then 2 * retry_delay attempt
          else retry_delay attempt))
unfolding retry_delay
retry_delay-doubles zero = (omega arith, omega arith, refl)
retry_delay-doubles (suc zero) = (omega arith, omega arith, refl)
retry_delay-doubles (suc (suc zero)) = (omega arith, omega arith, refl)
retry_delay-doubles (suc (suc (suc zero))) = (omega arith, omega arith, refl)
retry_delay-doubles (suc (suc (suc (suc zero)))) = (omega arith, omega arith, refl)
retry_delay-doubles (suc (suc (suc (suc (suc zero))))) = (omega arith, omega arith, refl)
retry_delay-doubles (suc (suc (suc (suc (suc (suc n)))))) =
    (ground arith, ground arith, ground arith)

-- A worker whose lease is at least 30 milliseconds has an interval above zero that fits
-- into the lease three times.
pub heartbeat_interval-fits :
    (lease : Duration)
    → 30 * millisecond ≤ lease
    → (0 < heartbeat_interval lease) × (3 * heartbeat_interval lease ≤ lease)
unfolding heartbeat_interval
heartbeat_interval-fits lease h = ground arith

filled : (id : String) → (if id == "" then "worker-local" else id) ≢ ""
filled id = elim (Bool-cases (id == "")) [
  | inl e ↦ rw (e) (λ h. omega (arith, ap Prim.Native.String.len h))
  | inr e ↦ rw (e) (λ h. ground (arith, e, h, eq_iff id ""))
]

kept : (id : String) → id ≢ "" → (if id == "" then "worker-local" else id) ≡ id
kept id h = ground (arith, h, eq_iff id "")

kept_number : (n default : ℕ) → 0 < n → (if leb n 0 then default else n) ≡ n
kept_number n default h = ground arith

-- Whatever the configuration, the worker that `New` makes has an id, a lease, a polling interval and an
-- attempt at least, and its own configuration is taken as it is.
pub new_config-IsUsable :
    (config : Config)
    → let worker = new_config config in
      (worker.id ≢ "")
      × (0 < worker.lease)
      × (0 < worker.poll)
      × (0 < worker.max_attempts)
      × (new_config worker ≡ worker)
unfolding new_config
new_config-IsUsable config = (
  filled config.id,
  ground arith,
  ground arith,
  ground arith,
  λ i. record {
    id = kept (new_config config).id (filled config.id) i;
    lease = kept_number (new_config config).lease (30 * second) (ground arith) i;
    poll = kept_number (new_config config).poll (500 * millisecond) (ground arith) i;
    max_attempts = kept_number (new_config config).max_attempts 5 (ground arith) i;
  },
)
