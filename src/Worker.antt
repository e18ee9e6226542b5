-- ===== src/Worker.antt =====
-- services/api/internal/worker: the worker over the in-memory repository, and the merchant that it
-- keeps in that repository. `hmac` and `sha256` are the digests of the standard library, `secret` the
-- secret of the one signer that the relay and the merchant share. The clock, the context and the
-- ticks of the heartbeat are arguments. A configuration holds no negative numbers.
pub mod Jobs
pub mod Delays
pub mod Convergence
pub mod Frame
pub mod Settling
pub mod Rounds
pub mod Loop
use parity_lab.Prelude.{
  ℕ, ◌-◌, ◌*◌, ◌/◌, ◌^◌, String, Bytes, Bool, true, false, List, [], ◌∷◌, Option, none, some, ◌==◌,
  string_eq, if◌then◌else◌, ◌&&◌, not, ltb, leb,
}
use parity_lab.Failure.{Failure, Try, ok, err, message, permanent}
use parity_lab.Domain.{Time, Duration, millisecond, second}
use parity_lab.Engine.Records.{Digest, OutboxMessage}
use parity_lab.Engine.Memory.{MemoryRepository}
use parity_lab.Engine.Memory.Outbox.{
  claim_outbox, heartbeat_outbox, complete_outbox, retry_outbox, fail_outbox,
}
use parity_lab.Verification.Relay.{Context}
use Jobs.{process}

pub record Config : Type 0 where
  pub id : String
  pub lease : Duration
  pub poll : Duration
  pub max_attempts : ℕ

-- the configuration of `New`
unfoldable pub new_config : Config → Config
new_config config = record {
  id = if config.id == "" then "worker-local" else config.id;
  lease = if leb config.lease 0 then 30 * second else config.lease;
  poll = if leb config.poll 0 then 500 * millisecond else config.poll;
  max_attempts = if leb config.max_attempts 0 then 5 else config.max_attempts;
}

unfoldable pub worker_error_code : String → Bool → String
worker_error_code topic retry =
    if topic == "stripe.webhook.received"
    then (if retry then "webhook_processing_retry" else "webhook_processing_failed")
    else if retry
    then "verification_retry"
    else "verification_failed"

unfoldable pub retry_delay : ℕ → Duration
retry_delay attempt =
    let at_least = if ltb attempt 1 then 1 else attempt in
    let at_most = if ltb 6 at_least then 6 else at_least in 2 ^ (at_most - 1) * second

-- the interval of the heartbeat
unfoldable pub heartbeat_interval : Duration → Duration
heartbeat_interval lease =
    let interval = lease / 3 in
    if ltb interval (10 * millisecond) then 10 * millisecond else interval

-- the ticks of the heartbeat, at the times given, until one finds the lease lost
unfoldable pub heartbeats :
    List Time → String → String → MemoryRepository → Option Failure × MemoryRepository
heartbeats [] id owner r = (none, r)
heartbeats (now ∷ ticks) id owner r =
    let (alive, r') = heartbeat_outbox now id owner r in
    let rest = heartbeats ticks id owner r' in
    if alive then rest else (some (message "outbox lease lost"), r')

-- the topics that a worker claims
abbrev pub worker_topics : List String
worker_topics = "run.persisted" ∷ "verification.run.queued" ∷ "stripe.webhook.received" ∷ []

-- `withHeartbeat`: a lost lease takes the place of the operation's own result. The ticks are
-- taken after the operation, which leaves the outbox alone; a context that a lost lease cancels
-- is the one that the operation is given.
unfoldable pub with_heartbeat :
    List Time
    → String
    → OutboxMessage
    → Try (Unit {0}) × MemoryRepository
    → Try (Unit {0}) × MemoryRepository
unfolding heartbeats
with_heartbeat ticks owner job (answer, r) =
    let (lost, r') = heartbeats ticks job.id owner r in
    (elim lost [ some e ↦ err e | none ↦ answer ], r')

-- what `RunOnce` does with the result of a job
unfoldable pub settled :
    Time
    → Config
    → OutboxMessage
    → Try (Unit {0})
    → MemoryRepository
    → Try (Unit {0}) × MemoryRepository
unfolding worker_error_code retry_delay
settled now config job (ok done) r = complete_outbox job.id config.id r
settled now config job (err (permanent code)) r = fail_outbox job.id config.id r
settled now config job (err e) r =
    if leb config.max_attempts job.attempts
    then fail_outbox job.id config.id r
    else retry_outbox now job.id config.id (retry_delay job.attempts) r

module _ (hmac : String → String → Bytes) (sha256 : String → Digest) (secret : String)
    (config : Config) where
  -- `claimed` and `ended` are the clock at the claim and at the end, `ticks` at the heartbeats.
  unfoldable pub run_once :
      Context
      → Time
      → List Time
      → Time
      → MemoryRepository
      → (Bool × Try (Unit {0})) × MemoryRepository
  unfolding with_heartbeat settled
  run_once ctx claimed ticks ended r =
      let (claim, r1) = claim_outbox claimed config.id config.lease worker_topics r in
      elim claim [
        | none ↦ ((false, ok tt), r1)
        | some job ↦
            let (answer, r2) =
              with_heartbeat ticks config.id job (process hmac sha256 secret ctx claimed job r1) in
            let (final, r3) = settled ended config job answer r2 in ((true, final), r3)
      ]
